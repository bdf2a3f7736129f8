-- ===== src/Telemetry/Cleaning.antt =====
-- telemetry.py: what `_clean` leaves.
use agent_storm.Prelude.{
  ℕ, [], ◌∷◌, ◌++◌, ◌≢◌, Among, Bool, true, any_of, codes, plain_letters, le→leb, arith, ap,
  codes-byte_prefix, sym, ◌≤◌, String, false, Option, none, some, List, ◌≡◌, refl, leb, leb→le,
  Bool-cases, inl, inr, byte_count, byte_count-byte_prefix,
}
use agent_storm.Prelude.Yields.{Yields, Yields-none, Yields-some}
use agent_storm.Models.{Value, Items, Fields}
use agent_storm.Models.Json
use agent_storm.Telemetry.{
  Object, nothing, boolean, int, float, text, dict, sequence, other, Entries, end, entry, Sequence,
  nil, cons, sensitive_key, codes_eq, ends_with, redacted_by, cut, string, kept_entry, kept_item,
  clean, clean_entries, clean_items,
}

-- The endings of the names of secrets, in small letters and digits only.
abbrev pub secret_names : List String
secret_names =
    "apikey" ∷ "auth" ∷ "authorization" ∷ "cookie" ∷ "credential" ∷ "credentials" ∷ "passphrase"
    ∷ "password" ∷ "privatekey" ∷ "secret" ∷ "sessionid" ∷ "token" ∷ []

-- The key does not end in the name of a secret, whatever stands before it.
abbrev pub IsHarmless : String → Type 0
IsHarmless key =
    (name : String)
    → Among name secret_names
    → (front : List ℕ) → plain_letters key ≢ front ++ codes name

append_nil : (xs : List ℕ) → xs ++ [] ≡ xs
append_nil [] = refl
append_nil (x ∷ xs) = ap (λ l. x ∷ l) (append_nil xs)

codes_eq_refl : (xs : List ℕ) → codes_eq xs xs ≡ true
unfolding codes_eq
codes_eq_refl [] = refl
codes_eq_refl (x ∷ xs) = ground (arith, codes_eq_refl xs)

ends_with-append : (front suffix : List ℕ) → ends_with suffix (front ++ suffix) ≡ true
unfolding ends_with codes_eq
ends_with-append [] [] = refl
ends_with-append [] (x ∷ suffix) = rw (codes_eq_refl (x ∷ suffix)) refl
ends_with-append (y ∷ front) suffix = elim (Bool-cases (codes_eq suffix (y ∷ front ++ suffix))) [
  | inl e ↦ rw e refl
  | inr e ↦ rw e (ends_with-append front suffix)
]

none_of :
    (test : String → Bool) (names : List String) (name : String)
    → any_of test names ≡ false
    → Among name names
    → test name ≡ false
none_of test [] name h a = absurd a
none_of test (n ∷ names) name h (inl e) = rw e (ground arith)
none_of test (n ∷ names) name h (inr a) = none_of test names name (ground arith) a

sensitive_key-IsHarmless : (key : String) → sensitive_key key ≡ false → IsHarmless key
unfolding sensitive_key
sensitive_key-IsHarmless key h name a front e =
    let missed =
      none_of (λ suffix. ends_with (codes suffix) (plain_letters key)) secret_names name h a in
    let found = ends_with-append front (codes name) in
    let same : ends_with (codes name) (plain_letters key) ≡ true = rw e found in cc

-- What is left of a text: all of it where it has at most 2048 bytes, and its beginning otherwise.
pub record IsCut (whole s : String) : Type 0 where
  pub short : byte_count s ≤ 2048
  pub beginning : (rest : List ℕ) × (codes whole ≡ codes s ++ rest)
  pub kept : byte_count whole ≤ 2048 → s ≡ whole

module _ (sub : (pattern value : String) → String) (patterns : List String) where
  -- Every pattern is replaced, one after the other.
  abbrev pub Replaced : List String → (before after : String) → Type 0
  Replaced [] before after = before ≡ after
  Replaced (pattern ∷ rest) before after = Replaced rest (sub pattern before) after

  abbrev pub IsSanitizedOf : (original s : String) → Type 0
  IsSanitizedOf original s = (whole : String) × Replaced patterns original whole × IsCut whole s

  abbrev pub IsSanitized : String → Type 0
  IsSanitized s = (original : String) × IsSanitizedOf original s

  mutual
    pub IsSafe : Value → Type 0
    IsSafe (Json.text s) = IsSanitized s
    IsSafe (Json.array items) = AreSafe items
    IsSafe (Json.object fields) = HasSafe fields
    IsSafe _ = Unit

    pub AreSafe : Items → Type 0
    AreSafe Json.nil = Unit
    AreSafe (Json.cons item items) = IsSafe item × AreSafe items

    pub HasSafe : Fields → Type 0
    HasSafe Json.end = Unit
    HasSafe (Json.field key value fields) = IsHarmless key × IsSafe value × HasSafe fields

  redacted_by-Replaced :
      (rest : List String) (s : String) → Replaced rest s (redacted_by sub patterns rest s)
  unfolding redacted_by
  redacted_by-Replaced [] s = refl
  redacted_by-Replaced (pattern ∷ rest) s = redacted_by-Replaced rest (sub pattern s)

  cut-IsCut : (s : String) → IsCut s (cut sub patterns s)
  unfolding cut
  cut-IsCut s = elim (Bool-cases (leb (byte_count s) 2048)) [
    | inl e ↦ rw e (record {
      short = leb→le _ _ e;
      beginning = ([], sym (append_nil (codes s)));
      kept = λ h. refl;
    })
    | inr e ↦ rw e (record {
      short = byte_count-byte_prefix 2048 s;
      beginning = codes-byte_prefix 2048 s;
      kept = λ h. let wrong = le→leb _ _ h in cc;
    })
  ]

  pub string-IsSanitizedOf : (s : String) → IsSanitizedOf s (string sub patterns s)
  unfolding string
  string-IsSanitizedOf s = (_, redacted_by-Replaced patterns s, cut-IsCut _)

  pub string-IsSanitized : (s : String) → IsSanitized (string sub patterns s)
  string-IsSanitized s = (s, string-IsSanitizedOf s)

  kept_entry-HasSafe :
      (key : String) (cleaned : Option Value) (fields : Fields)
      → Yields IsSafe cleaned
      → HasSafe fields
      → HasSafe (kept_entry sub patterns key (sensitive_key key) cleaned fields)
  unfolding kept_entry HasSafe
  kept_entry-HasSafe key none fields c f = elim (Bool-cases (sensitive_key key)) [
    | inl h ↦ rw h f
    | inr h ↦ rw h f
  ]
  kept_entry-HasSafe key (some value) fields c f = elim (Bool-cases (sensitive_key key)) [
    | inl h ↦ rw h f
    | inr h ↦ rw h (sensitive_key-IsHarmless key h, c value refl, f)
  ]

  kept_item-AreSafe :
      (cleaned : Option Value) (items : Items)
      → Yields IsSafe cleaned
      → AreSafe items
      → AreSafe (kept_item sub patterns cleaned items)
  unfolding kept_item AreSafe
  kept_item-AreSafe none items c i = i
  kept_item-AreSafe (some value) items c i = (c value refl, i)

  mutual
    unfolding clean IsSafe

    clean-IsSafe : (value : Object) → Yields IsSafe (clean sub patterns value)
    clean-IsSafe nothing = Yields-some IsSafe _ tt
    clean-IsSafe (boolean b) = Yields-some IsSafe _ tt
    clean-IsSafe (int n) = Yields-some IsSafe _ tt
    clean-IsSafe (float x) = Yields-some IsSafe _ tt
    clean-IsSafe (text s) = Yields-some IsSafe _ (string-IsSanitized s)
    clean-IsSafe (dict entries) = Yields-some IsSafe _ (clean_entries-HasSafe entries)
    clean-IsSafe (sequence items) = Yields-some IsSafe _ (clean_items-AreSafe items)
    clean-IsSafe other = Yields-none IsSafe

    clean_entries-HasSafe : (entries : Entries) → HasSafe (clean_entries sub patterns entries)
    clean_entries-HasSafe end = tt
    clean_entries-HasSafe (entry none value rest) = clean_entries-HasSafe rest
    clean_entries-HasSafe (entry (some key) value rest) =
        kept_entry-HasSafe key (clean sub patterns value) (clean_entries sub patterns rest)
          (clean-IsSafe value) (clean_entries-HasSafe rest)

    clean_items-AreSafe : (items : Sequence) → AreSafe (clean_items sub patterns items)
    clean_items-AreSafe nil = tt
    clean_items-AreSafe (cons item rest) =
        kept_item-AreSafe (clean sub patterns item) (clean_items sub patterns rest)
          (clean-IsSafe item) (clean_items-AreSafe rest)
