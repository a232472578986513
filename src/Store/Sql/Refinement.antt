-- ===== src/Store/Sql/Refinement.antt =====
-- The tokens of the database against those of the in-memory store: pkg/store/store.go and
-- pkg/store/memory.go.
use gospeak.Prelude.{
  suc, ◌≡◌, refl, ap, ◌∙◌, inl, inr, [], ◌∷◌, Option, none, some, arith, if◌then◌else◌, Text,
  text_eq, eqb_text_iff, lookup, insert, lookup-insert, Int.pos, Option-cases, Bool-cases,
}
use gospeak.Model.{Time, is_zero}
use gospeak.Store.{err, token_expired, token_exhausted}
use gospeak.Store.Memory.{
  MemoryStore, MemoryToken, validate_token, token_is_expired, token_is_exhausted,
}
use gospeak.Store.Sql.{txt, Database}
use gospeak.Store.Sql.Tokens.{
  TokenRow, count_use, check_expiry, is_used_up, check_row, validate_token_sql,
}
use gospeak.Store.Sql.Table.{
  IsStorable, IsTokenTable, validate_absent, validate_refused, validate_used,
}

-- A token of the in-memory store as a row.
abbrev pub stored : {B : Type 0} → Database B → MemoryToken → TokenRow
stored db t = record {
  role = t.role;
  max_uses = t.max_uses;
  use_count = pos t.use_count;
  expires_at = if is_zero t.expires_at then none else some (db.format_time t.expires_at);
}

abbrev pub stored_all : {B : Type 0} → Database B → Option MemoryToken → Option TokenRow
stored_all db none = none
stored_all db (some t) = some (stored db t)

-- The database holds the tokens of the in-memory store, and each expires at a time that can be stored.
pub record Agrees {B : Type 0} (db : Database B) (token : Text → B → Option TokenRow)
    (s : MemoryStore) (b : B) : Type 0 where
  pub same : (hash : Text) → token hash b ≡ stored_all db (lookup hash s.tokens_by_hash)
  pub whole :
      (hash : Text) (t : MemoryToken)
      → lookup hash s.tokens_by_hash ≡ some t
      → IsStorable t.expires_at

module _ {B : Type 0} (db : Database B) (token : Text → B → Option TokenRow)
    (law : IsTokenTable db token) where
  check_expiry-stored :
      (now : Time) (t : MemoryToken)
      → IsStorable t.expires_at
      → check_expiry db now (stored db t).expires_at
        ≡ (if token_is_expired now t then some (err token_expired) else none)
  unfolding check_expiry
  check_expiry-stored now t h = ground (arith, law.reads t.expires_at h)

  check_row-stored :
      (now : Time) (t : MemoryToken)
      → IsStorable t.expires_at
      → check_row db now (stored db t) ≡ (
          if token_is_expired now t
          then some (err token_expired)
          else if token_is_exhausted t
          then some (err token_exhausted)
          else none)
  unfolding check_row
  check_row-stored now t h = elim (Bool-cases (token_is_expired now t)) [
    | inl e ↦ rw (check_expiry-stored now t h, check_row, e) refl
    | inr e ↦ rw (check_expiry-stored now t h, check_row, e) (unfold is_used_up in ground arith)
  ]

  -- The row under a hash after a use that was counted and committed.
  used_row :
      (now : Time) (hash other : Text) (s : MemoryStore) (b : B) (t : MemoryToken)
      → Agrees db token s b
      → lookup hash s.tokens_by_hash ≡ some t
      → token other (db.commit (db.exec now count_use (txt hash ∷ []) b).1).1
        ≡ stored_all db
            (lookup other (insert hash (record t { use_count = suc t.use_count }) s.tokens_by_hash))
  used_row now hash other s b t h found =
      let b1 = (db.exec now count_use (txt hash ∷ []) b).1 in
      let used = record t { use_count = suc t.use_count } in
      rw
        (
          law.committed other b1,
          law.counted now hash other b,
          lookup-insert hash other used s.tokens_by_hash,
        )
        (ground (arith, h.same other, eqb_text_iff hash other))

  used-Agrees :
      (now : Time) (hash : Text) (s : MemoryStore) (b : B) (t : MemoryToken)
      → Agrees db token s b
      → lookup hash s.tokens_by_hash ≡ some t
      → Agrees db token
          (record s {
            tokens_by_hash =
                insert hash (record t { use_count = suc t.use_count }) s.tokens_by_hash;
          })
          (db.commit (db.exec now count_use (txt hash ∷ []) b).1).1
  used-Agrees now hash s b t h e = record {
    same = λ other. used_row now hash other s b t h e;
    whole = λ other u k.
        let used = record t { use_count = suc t.use_count } in
        ground (
          arith,
          lookup-insert hash other used s.tokens_by_hash,
          h.whole hash t e,
          h.whole other u,
        );
  }

  -- Presenting a token to the database and to the in-memory store gives the same answer, and they
  -- agree afterwards.
  pub validate_token-Agrees :
      (now : Time) (hash : Text) (s : MemoryStore) (b : B)
      → Agrees db token s b
      → ((validate_token_sql db now hash b).0 ≡ (validate_token now hash s).0)
        × Agrees db token (validate_token now hash s).1 (validate_token_sql db now hash b).1
  unfolding validate_token
  validate_token-Agrees now hash s b h = elim (Option-cases (lookup hash s.tokens_by_hash)) [
    | inl e ↦
        let none_ : token hash b ≡ none = h.same hash ∙ ap (stored_all db) e in
        rw (validate_absent db token law now hash b none_, e, validate_token) (refl, h)
    | inr (t, e) ↦
        let there : token hash b ≡ some (stored db t) = h.same hash ∙ ap (stored_all db) e in
        let checked_ = check_row-stored now t (h.whole hash t e) in
        elim (Bool-cases (token_is_expired now t)) [
          | inl old ↦
              rw
                (
                  validate_refused db token law now hash b (stored db t) (err token_expired) there
                      (checked_ ∙ rw old refl),
                  e,
                  validate_token,
                  old,
                )
                (refl, h)
          | inr fresh ↦ elim (Bool-cases (token_is_exhausted t)) [
            | inl over ↦
                rw
                  (
                    validate_refused db token law now hash b (stored db t) (err token_exhausted)
                        there (checked_ ∙ rw (fresh, over) refl),
                    e,
                    validate_token,
                    fresh,
                    over,
                  )
                  (refl, h)
            | inr left ↦
                rw
                  (
                    validate_used db token law now hash b (stored db t) there
                        (checked_ ∙ rw (fresh, left) refl),
                    e,
                    validate_token,
                    fresh,
                    left,
                  )
                  (refl, used-Agrees now hash s b t h e)
          ]
        ]
  ]
