-- ===== src/Store/Memory/Tokens.antt =====
-- Tokens and bans of pkg/store/memory.go.
use gospeak.Prelude.{
  ℕ, zero, suc, ◌+◌, ◌≤◌, ◌≡◌, refl, ap, ◌↔◌, ◌⊎◌, inl, inr, true, false, ◌&&◌, ◌||◌, List, [], ◌∷◌,
  none, some, arith, ◌==◌, eqb_text_iff, if◌then◌else◌, Map, values, lookup, insert, lookup-insert,
  Text, ℕ_eq, ℤ_eq, text_eq, Int.ℤ, Int.pos, Int.negsuc, Int.ltb_ℤ, Option-cases, Bool-cases,
}
use gospeak.Model.{Role, Token, is_exhausted, Ban, Time, is_zero, after}
use gospeak.Store.{Error, ok, err, token_expired, token_exhausted}
use gospeak.Store.Memory.{
  MemoryStore, MemoryToken, token_is_expired, token_is_exhausted, validate_token, create_ban,
  any_ban, ban_applies, is_user_banned,
}

-- A token is accepted exactly when it is known, has not expired and has a use left; then its role is
-- returned.
pub validate_token_iff :
    (now : Time) (hash : Text) (s : MemoryStore) (r : Role)
    → ((validate_token now hash s).0 ≡ ok r) ↔ (
        (t : MemoryToken) × (lookup hash s.tokens_by_hash ≡ some t)
        × (t.role ≡ r)
        × ((t.expires_at ≡ 0) ⊎ (now ≤ t.expires_at))
        × ((ltb_ℤ (pos 0) t.max_uses ≡ false) ⊎ (ltb_ℤ (pos t.use_count) t.max_uses ≡ true)))
unfolding validate_token
validate_token_iff now hash s r =
    (accepted, λ h. let (t, found, same, live, left) = h in ground arith)
  where
    accepted :
        (validate_token now hash s).0 ≡ ok r
        → (t : MemoryToken) × (lookup hash s.tokens_by_hash ≡ some t)
          × (t.role ≡ r)
          × ((t.expires_at ≡ 0) ⊎ (now ≤ t.expires_at))
          × ((ltb_ℤ (pos 0) t.max_uses ≡ false) ⊎ (ltb_ℤ (pos t.use_count) t.max_uses ≡ true))
    accepted e = elim (Option-cases (lookup hash s.tokens_by_hash)) [
      | inl gone ↦ absurd (ground arith)
      | inr (t, found) ↦ (t, found, ground arith, ground arith, ground arith)
    ]

-- A validation counts one use of that token if it is accepted, and otherwise changes nothing; it
-- never changes another token.
pub validate_token_use :
    (now : Time) (hash h : Text) (s : MemoryStore) (t : MemoryToken)
    → lookup h s.tokens_by_hash ≡ some t
    → lookup h (validate_token now hash s).1.tokens_by_hash
      ≡ some (record t {
        use_count = elim (validate_token now hash s).0 [
          | ok r ↦ if hash == h then suc t.use_count else t.use_count
          | err e ↦ t.use_count
        ];
      })
unfolding validate_token
validate_token_use now hash h s t found = elim (Option-cases (lookup hash s.tokens_by_hash)) [
  | inl gone ↦ rw (gone, validate_token) found
  | inr (t', found') ↦
      rw (found', validate_token)
        (ground (
          arith,
          eqb_text_iff hash h,
          lookup-insert hash h (record t' { use_count = suc t'.use_count }) s.tokens_by_hash,
        ))
]

-- How many of a sequence of validations of one token, at the given times, are accepted.
pub accepted_uses : List Time → Text → MemoryStore → ℕ
accepted_uses [] hash s = 0
accepted_uses (now ∷ times) hash s =
    let rest = accepted_uses times hash (validate_token now hash s).1 in
    elim (validate_token now hash s).0 [ ok r ↦ suc rest | err e ↦ rest ]

validate_token_cases :
    (now : Time) (hash : Text) (s : MemoryStore) (t : MemoryToken)
    → lookup hash s.tokens_by_hash ≡ some t
    → ((token_is_exhausted t ≡ false)
        × ((validate_token now hash s).0 ≡ ok t.role)
        × (lookup hash (validate_token now hash s).1.tokens_by_hash
            ≡ some (record t { use_count = suc t.use_count })))
      ⊎ ((e : Error) × ((validate_token now hash s).0 ≡ err e)
          × ((validate_token now hash s).1 ≡ s))
unfolding validate_token
validate_token_cases now hash s t found = elim (Bool-cases (token_is_expired now t)) [
  | inl old ↦ inr (token_expired, rw (found, old, validate_token), rw (found, old, validate_token))
  | inr live ↦ elim (Bool-cases (token_is_exhausted t)) [
    | inl used ↦ inr (
      token_exhausted,
      rw (found, live, used, validate_token),
      rw (found, live, used, validate_token),
    )
    | inr left ↦ inl (
      left,
      rw (found, live, left, validate_token),
      rw (found, live, left, validate_token)
          (ground (
            arith,
            eqb_text_iff hash hash,
            lookup-insert hash hash (record t { use_count = suc t.use_count }) s.tokens_by_hash,
          )),
    )
  ]
]

-- However often and whenever a token with a limit is presented, it is accepted at most as often as
-- it has uses left.
pub accepted_uses-le :
    (times : List Time) (hash : Text) (s : MemoryStore) (t : MemoryToken) (k : ℕ)
    → lookup hash s.tokens_by_hash ≡ some t
    → t.max_uses ≡ pos (suc k)
    → t.use_count ≤ suc k
    → accepted_uses times hash s + t.use_count ≤ suc k
unfolding accepted_uses
accepted_uses-le [] hash s t k found m le = omega arith
accepted_uses-le (now ∷ times) hash s t k found m le =
    elim (validate_token_cases now hash s t found) [
      | inl (left, good, after_) ↦
          rw (good, accepted_uses)
            (omega (
              arith,
              accepted_uses-le times hash (validate_token now hash s).1
                  (record t { use_count = suc t.use_count }) k after_ m (ground arith),
            ))
      | inr (e, bad, same) ↦
          rw (bad, accepted_uses)
            (omega (
              arith,
              ap (accepted_uses times hash) same,
              accepted_uses-le times hash s t k found m le,
            ))
    ]

-- A stored token as a Token of pkg/model/model.go.
abbrev pub as_token : MemoryToken → Token
as_token t = record {
  id = pos t.id;
  value = [];
  hash = t.hash;
  role = t.role;
  channel_scope = t.channel_scope;
  created_by = t.created_by;
  max_uses = t.max_uses;
  use_count = pos t.use_count;
  expires_at = t.expires_at;
  created_at = t.created_at;
}

-- The store's test for a token that is used up is Token.IsExhausted, except where the limit is
-- negative: IsExhausted then says that the token is used up, and the store takes it as unlimited.
pub is_exhausted_cases :
    (t : MemoryToken)
    → ((token_is_exhausted t ≡ is_exhausted (as_token t)) × (ltb_ℤ t.max_uses (pos 0) ≡ false))
      ⊎ ((token_is_exhausted t ≡ false)
          × (is_exhausted (as_token t) ≡ true)
          × (ltb_ℤ t.max_uses (pos 0) ≡ true))
unfolding is_exhausted
is_exhausted_cases t = by_limit t.max_uses refl
  where
    by_limit :
        (m : ℤ)
        → t.max_uses ≡ m
        → ((token_is_exhausted t ≡ is_exhausted (as_token t)) × (ltb_ℤ t.max_uses (pos 0) ≡ false))
          ⊎ ((token_is_exhausted t ≡ false)
              × (is_exhausted (as_token t) ≡ true)
              × (ltb_ℤ t.max_uses (pos 0) ≡ true))
    by_limit (pos zero) e = inl (ground arith)
    by_limit (pos (suc n)) e = inl (ground arith)
    by_limit (negsuc n) e = inr (ground arith)

any_ban-insert :
    (now : Time) (i : ℤ) (k : ℤ) (b : Ban) (m : Map ℤ Ban)
    → lookup k m ≡ none
    → any_ban now i (values (insert k b m)) ≡ (any_ban now i (values m) || ban_applies now i b)
unfolding any_ban insert lookup
any_ban-insert now i k b [] h = ground arith
any_ban-insert now i k b ((j, c) ∷ m) h = ground (arith, any_ban-insert now i k b m)

-- The bans' IDs are below the counter.
abbrev pub BansBelow : MemoryStore → Type 0
BansBelow s = (n : ℕ) → s.next_ban_id ≤ n → lookup (pos n) s.bans_by_id ≡ none

-- A new ban of a user holds, as long as it is permanent or the time is before its end, for that user
-- alone; for every user the bans before it hold as before.
pub is_user_banned-create_ban :
    (now later : Time) (i j : ℤ) (ip reason : Text) (by : ℤ) (ends : Time) (s : MemoryStore)
    → BansBelow s
    → is_user_banned later j (create_ban now i ip reason by ends s).1
      ≡ (is_user_banned later j s || (i == j && (is_zero ends || after ends later)))
unfolding is_user_banned create_ban
is_user_banned-create_ban now later i j ip reason by ends s below =
    any_ban-insert later j (pos s.next_ban_id) _ s.bans_by_id (below s.next_ban_id (omega arith))

pub create_ban-BansBelow :
    (now : Time) (i : ℤ) (ip reason : Text) (by : ℤ) (ends : Time) (s : MemoryStore)
    → BansBelow s
    → BansBelow (create_ban now i ip reason by ends s).1
unfolding create_ban
create_ban-BansBelow now i ip reason by ends s below n le = ground (
  arith,
  below n,
  lookup-insert (pos s.next_ban_id) (pos n)
      (record {
        id = pos s.next_ban_id;
        user_id = i;
        ip = ip;
        reason = reason;
        banned_by = by;
        expires_at = ends;
        created_at = now;
      })
      s.bans_by_id,
)
