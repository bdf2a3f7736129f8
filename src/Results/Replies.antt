-- ===== src/Results/Replies.antt =====
-- results.py: what the answers of the client say of the replies.
use agent_storm.Prelude.{
  ℕ, ◌≤◌, Bool, false, Option, none, some, ◌≡◌, ◌≢◌, refl, sym, ap, subst, ◌⊎◌, inl, inr, ◌==◌,
  ==→eq, arith, Bool-cases,
}
use agent_storm.Prelude.Int.{ℤ, pos, negsuc}
use agent_storm.Models.{Value, Fields}
use agent_storm.Models.Json
use agent_storm.Models.Json.{get}
use agent_storm.Config.Readers.{Python}
use agent_storm.Results.{
  Body, Reply, replied, http_error, unavailable, Answer, answered, sink_error, busy, raised, loaded,
  at_least_one, wait_of, advised, too_many, object_reply, post_reply,
}

-- A successful reply with an object in its body; an empty body is an empty object.
abbrev pub HasObject : Reply → Fields → Type 0
HasObject reply fields =
    (status : ℕ) × (body : Body) × (reply ≡ replied status body)
    × (status ≢ 204)
    × (loaded body ≡ some (Json.object fields))

-- JSON that is no object.
abbrev pub IsNoObject : Value → Type 0
IsNoObject (Json.object fields) = ⊥
IsNoObject _ = Unit

-- A 429 whose advice cannot be read: JSON that is no object, or an infinite wait.
abbrev pub IsMalformed : Body → Type 0
IsMalformed body =
    ((v : Value) × (loaded body ≡ some v) × IsNoObject v)
    ⊎ ((fields : Fields) × (positive : Bool) × (loaded body ≡ some (Json.object fields))
        × (get "retry_after_ms" fields ≡ some (Json.float (Json.infinite positive))))

-- What each answer of a POST says of its reply.
abbrev pub IsPosted : Reply → Answer (Option Fields) → Type 0
IsPosted reply (answered none) = (body : Body) × (reply ≡ replied 204 body)
IsPosted reply (answered (some fields)) = HasObject reply fields
IsPosted reply (busy ms) = (1 ≤ ms) × ((body : Body) × (reply ≡ http_error 429 body))
IsPosted reply sink_error =
    (reply ≡ unavailable)
    ⊎ ((code : ℕ) × (body : Body) × (reply ≡ http_error code body) × (code ≢ 429))
    ⊎ ((status : ℕ) × (body : Body) × (reply ≡ replied status body)
        × (status ≢ 204)
        × ((v : Value) × (loaded body ≡ some v) × IsNoObject v))
IsPosted reply raised =
    ((status : ℕ) × (body : Body) × (reply ≡ replied status body)
      × (status ≢ 204)
      × (loaded body ≡ none))
    ⊎ ((body : Body) × (reply ≡ http_error 429 body) × IsMalformed body)

apart : (m n : ℕ) → (m == n) ≡ false → m ≢ n
apart m n h e = ground arith

wait_of-IsPosted : (body : Body) (o : Option ℤ) → IsPosted (http_error 429 body) (wait_of o)
unfolding wait_of at_least_one
wait_of-IsPosted body none = (omega arith, (body, refl))
wait_of-IsPosted body (some (pos n)) = (ground arith, (body, refl))
wait_of-IsPosted body (some (negsuc n)) = (omega arith, (body, refl))

advised-IsPosted :
    (py : Python) (body : Body) (value : Value)
    → ((positive : Bool) → value ≡ Json.float (Json.infinite positive) → IsMalformed body)
    → IsPosted (http_error 429 body) (advised py value)
unfolding advised
advised-IsPosted py body (Json.float (Json.infinite positive)) m = inr (body, refl, m positive refl)
advised-IsPosted py body Json.null m = wait_of-IsPosted body _
advised-IsPosted py body (Json.boolean b) m = wait_of-IsPosted body _
advised-IsPosted py body (Json.int n) m = wait_of-IsPosted body _
advised-IsPosted py body (Json.text s) m = wait_of-IsPosted body _
advised-IsPosted py body (Json.array xs) m = wait_of-IsPosted body _
advised-IsPosted py body (Json.object fs) m = wait_of-IsPosted body _
advised-IsPosted py body (Json.float (Json.finite n over)) m = wait_of-IsPosted body _
advised-IsPosted py body (Json.float Json.nan) m = wait_of-IsPosted body _

-- An infinite advice stands in the body.
infinite_given :
    (value : Option Value) (positive : Bool)
    → elim value [ none ↦ Json.int (pos 1000) | some v ↦ v ] ≡ Json.float (Json.infinite positive)
    → value ≡ some (Json.float (Json.infinite positive))
infinite_given none positive h = cc
infinite_given (some v) positive h = ap some h

too_many-IsPosted :
    (py : Python) (body : Body) (o : Option Value)
    → loaded body ≡ o
    → IsPosted (http_error 429 body) (too_many py o)
unfolding too_many
too_many-IsPosted py body none e = (omega arith, (body, refl))
too_many-IsPosted py body (some (Json.object fields)) e = advised-IsPosted py body _ (λ positive h.
    inr (fields, positive, e, infinite_given (get "retry_after_ms" fields) positive h))
too_many-IsPosted py body (some Json.null) e = inr (body, refl, inl (Json.null, e, tt))
too_many-IsPosted py body (some (Json.boolean b)) e = inr (body, refl, inl (Json.boolean b, e, tt))
too_many-IsPosted py body (some (Json.int n)) e = inr (body, refl, inl (Json.int n, e, tt))
too_many-IsPosted py body (some (Json.text s)) e = inr (body, refl, inl (Json.text s, e, tt))
too_many-IsPosted py body (some (Json.array xs)) e = inr (body, refl, inl (Json.array xs, e, tt))
too_many-IsPosted py body (some (Json.float x)) e = inr (body, refl, inl (Json.float x, e, tt))

object_reply-IsPosted :
    (status : ℕ) (body : Body) (o : Option Value)
    → status ≢ 204
    → loaded body ≡ o
    → IsPosted (replied status body) (object_reply o)
unfolding object_reply
object_reply-IsPosted status body none n e = inl (status, body, refl, n, e)
object_reply-IsPosted status body (some (Json.object fields)) n e = (status, body, refl, n, e)
object_reply-IsPosted status body (some Json.null) n e =
    inr (inr (status, body, refl, n, (Json.null, e, tt)))
object_reply-IsPosted status body (some (Json.boolean b)) n e =
    inr (inr (status, body, refl, n, (Json.boolean b, e, tt)))
object_reply-IsPosted status body (some (Json.int m)) n e =
    inr (inr (status, body, refl, n, (Json.int m, e, tt)))
object_reply-IsPosted status body (some (Json.text s)) n e =
    inr (inr (status, body, refl, n, (Json.text s, e, tt)))
object_reply-IsPosted status body (some (Json.array xs)) n e =
    inr (inr (status, body, refl, n, (Json.array xs, e, tt)))
object_reply-IsPosted status body (some (Json.float x)) n e =
    inr (inr (status, body, refl, n, (Json.float x, e, tt)))

-- Each answer of a POST and its reply: nothing after a 204, the object of another success, a busy
-- scheduler with a wait of at least one millisecond only after a 429, and so on.
pub post_reply-IsPosted : (py : Python) (reply : Reply) → IsPosted reply (post_reply py reply)
unfolding post_reply
post_reply-IsPosted py unavailable = inl refl
post_reply-IsPosted py (replied status body) = elim (Bool-cases (status == 204)) [
  | inl e ↦ rw e (body, ap (λ n. replied n body) (==→eq status 204 e))
  | inr e ↦ rw e (object_reply-IsPosted status body (loaded body) (apart status 204 e) refl)
]
post_reply-IsPosted py (http_error code body) = elim (Bool-cases (code == 429)) [
  | inl e ↦ rw e (
      subst (λ n. IsPosted (http_error n body) (too_many py (loaded body))) (sym (==→eq code 429 e))
        (too_many-IsPosted py body (loaded body) refl))
  | inr e ↦ rw e (inr (inl (code, body, refl, apart code 429 e)))
]
