-- ===== src/Chat/Post/Follows.antt =====
-- openai_compatible.py: which requests are repeated, and what the last one has to do with the ending.
use agent_storm.Prelude.{
  ℕ, zero, suc, ◌+◌, max, ◌≤◌, ◌<◌, String, true, false, Option, none, some, ◌≡◌, refl, sym, subst,
  ◌==◌, ==→eq, leb, arith, Bool-cases, inl, inr,
}
use agent_storm.Models.{Fields}
use agent_storm.Chat.Ledger.{Ledger, priced_unknown, ledger_error}
use agent_storm.Chat.Post.{
  Client, Exchange, answered, http_error, timed_out, url_error, io_error, interrupted, post, Ending,
  returned, failed, cancelled, stuck, Retried, after_reply, after_post, post_tries, slept, unpriced,
}

-- The server answered with a status and a body.
abbrev pub HasStatus : ℕ → Exchange → Type 0
HasStatus n (answered status retry_after body) = status ≡ n
HasStatus n (http_error status retry_after (some body)) = status ≡ n
HasStatus n _ = ⊥

-- The request broke off by a timeout, or for another reason.
abbrev pub BreaksOff : (code : String) → Exchange → Type 0
BreaksOff code (http_error status retry_after none) = code ≡ "connection_error"
BreaksOff code timed_out = code ≡ "timeout"
BreaksOff code (url_error true) = code ≡ "timeout"
BreaksOff code (url_error false) = code ≡ "connection_error"
BreaksOff code io_error = code ≡ "connection_error"
BreaksOff code _ = ⊥

abbrev pub Explains : Exchange → Ending → Type 0
Explains x (returned status body) = HasStatus status x
Explains x (failed error) = BreaksOff error.code x
Explains x cancelled = x ≡ interrupted
Explains x stuck = ⊥

-- From request `start` on: each but the last was answered with a 429, and the last one is what the
-- ending says.
pub record Follows (exchange : ℕ → Exchange) (start : ℕ) (r : Retried) : Type 0 where
  pub repeated : (n : ℕ) → start ≤ n → suc n < r.tries → HasStatus 429 (exchange n)
  pub last : (n : ℕ) → suc n ≡ r.tries → Explains (exchange n) r.ending

module _ (client : Client) (exchange : ℕ → Exchange) where
  -- The request is the last.
  final :
      (start : ℕ) (r : Retried)
      → r.tries ≡ start + 1
      → Explains (exchange start) r.ending
      → Follows exchange start r
  final start r t e = record {
    repeated = λ n l m. let wrong : ⊥ = omega (arith, t, l, m) in elim wrong [ ];
    last = λ n s. subst (λ k. Explains (exchange k) r.ending) (omega (arith, t, s)) e;
  }

  one_more :
      (start delay : ℕ) (r : Retried)
      → HasStatus 429 (exchange start)
      → Follows exchange (start + 1) r
      → Follows exchange start (slept delay r)
  unfolding slept
  one_more start delay r h f = record {
    repeated = λ n l m. elim (Bool-cases (n == start)) [
      | inl e ↦ subst (λ k. HasStatus 429 (exchange k)) (sym (==→eq n start e)) h
      | inr e ↦ f.repeated n (ground (arith, l, e)) m
    ];
    last = f.last;
  }

  after_reply-Follows :
      (start status : ℕ) (body : Option Fields) (retry_after : Option ℕ) (l : Ledger)
      (again : Ledger → Retried)
      → HasStatus status (exchange start)
      → ((noted : Ledger)
          → leb client.max_http_attempts (start + 1) ≡ false
          → Follows exchange (start + 1) (again noted))
      → Follows exchange start (after_reply client (start + 1) status body retry_after l again)
  unfolding after_reply
  after_reply-Follows start status body retry_after l again h rest =
      elim (Bool-cases (status == 429)) [
        | inr e ↦ rw e (final start _ refl h)
        | inl e ↦ elim (Bool-cases (leb client.max_http_attempts (start + 1))) [
          | inl m ↦ rw (e, m) (final start _ refl h)
          | inr m ↦
              rw (e, m)
                (one_more start _ _
                  (subst (λ k. HasStatus k (exchange start)) (==→eq status 429 e) h) (rest _ m))
        ]
      ]

  after_post-Follows :
      (start : ℕ) (x : Exchange) (l : Ledger) (again : Ledger → Retried)
      → exchange start ≡ x
      → ((noted : Ledger)
          → leb client.max_http_attempts (start + 1) ≡ false
          → Follows exchange (start + 1) (again noted))
      → Follows exchange start (after_post client (start + 1) (post client x l) l again)
  unfolding after_post post unpriced priced_unknown ledger_error
  after_post-Follows start (answered status retry_after body) l again e rest =
      after_reply-Follows start status _ retry_after l again (rw e refl) rest
  after_post-Follows start (http_error status retry_after (some body)) l again e rest =
      after_reply-Follows start status _ retry_after l again (rw e refl) rest
  after_post-Follows start (http_error status retry_after none) l again e rest =
      final start _ refl (rw e refl)
  after_post-Follows start timed_out l again e rest = final start _ refl (rw e refl)
  after_post-Follows start (url_error true) l again e rest = final start _ refl (rw e refl)
  after_post-Follows start (url_error false) l again e rest = final start _ refl (rw e refl)
  after_post-Follows start io_error l again e rest = final start _ refl (rw e refl)
  after_post-Follows start interrupted l again e rest = final start _ refl e

  pub post_tries-Follows :
      (fuel tries : ℕ) (l : Ledger)
      → tries < max 1 client.max_http_attempts
      → client.max_http_attempts < fuel + tries
      → Follows exchange tries (post_tries client exchange fuel tries l)
  unfolding post_tries
  post_tries-Follows zero tries l t f = let wrong : ⊥ = omega (arith, t, f) in elim wrong [ ]
  post_tries-Follows (suc fuel) tries l t f =
      after_post-Follows tries (exchange tries) l (post_tries client exchange fuel (tries + 1)) refl
        (λ noted m.
          post_tries-Follows fuel (tries + 1) noted (ground (arith, m)) (omega (arith, f)))
