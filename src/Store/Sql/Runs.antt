-- ===== src/Store/Sql/Runs.antt =====
-- Any sequence of calls on the tokens, on the database and on the in-memory store: pkg/store/store.go
-- and pkg/store/memory.go.
use gospeak.Prelude.{
  ◌≡◌, refl, sym, ap, ◌∙◌, inl, inr, true, List, [], ◌∷◌, Option, none, some, is_some, arith,
  if◌then◌else◌, Text, text, All, map, ◌++◌, ◌==◌, text_eq, lookup, insert, lookup-insert, Int.ℤ,
  Int.pos, Option-cases, Bool-cases,
}
use gospeak.Model.{Role, Time}
use gospeak.Store.{Result, ok, err, failed, error_text}
use gospeak.Store.Memory.{MemoryStore, MemoryToken, new_memory, create_token, validate_token}
use gospeak.Store.Sql.{Reply, done, bad, Database, checked}
use gospeak.Store.Sql.Tokens.{TokenRow, expiry_value, create_token_sql, validate_token_sql}
use gospeak.Store.Sql.Table.{
  cut, IsExpiry, cut-IsStorable, is_zero-cut, IsStorable, IsTokenTable, column_text,
}
use gospeak.Store.Sql.Refinement.{stored, stored_all, Agrees, validate_token-Agrees}

-- What a caller sees of a result: the role, or the error's text; that a token was made, or not, since
-- the text for a hash that is taken is the driver's.
pub data Said : Type 0 where
  accepted : Role → Said
  refused : Text → Said
  created not_created : Said

abbrev pub said_role : Result Role → Said
said_role (ok role) = accepted role
said_role (err e) = refused (error_text e)

abbrev pub said_unit : Result (Unit {0}) → Said
said_unit (ok u) = created
said_unit (err e) = not_created

-- The token that CreateToken makes in the in-memory store.
abbrev made : Time → Text → Role → ℤ → ℤ → ℤ → Time → MemoryStore → MemoryToken
made now hash role scope by max_uses ends s = record {
  id = s.next_token_id;
  hash = hash;
  role = role;
  channel_scope = scope;
  created_by = by;
  max_uses = max_uses;
  use_count = 0;
  expires_at = ends;
  created_at = now;
}

checked-done :
    {B : Type 0} (context : Text) (id : ℤ) (r : Reply ℤ × B)
    → r.0 ≡ done id
    → (said_unit (checked context r).0 ≡ created) × ((checked context r).1 ≡ r.1)
unfolding checked
checked-done context id (done n, b) h = (refl, refl)
checked-done context id (bad e, b) h = cc

module _ {B : Type 0} (db : Database B) (token : Text → B → Option TokenRow)
    (law : IsTokenTable db token) where
  create_taken :
      (now : Time) (hash : Text) (role : Role) (scope by max_uses : ℤ) (ends : Time) (b : B)
      → is_some (token hash b) ≡ true
      → (e : Text) × (create_token_sql db now hash role scope by max_uses ends b
          ≡ (err (failed (text "store: create token: " ++ e)), b))
  unfolding create_token_sql checked
  create_taken now hash role scope by max_uses ends b h =
      let (e, taken) = law.is_unique now hash role scope by max_uses (expiry_value db ends) b h in
      (e, ap (checked (text "store: create token: ")) taken)

  create_new :
      (now : Time) (hash : Text) (role : Role) (scope by max_uses : ℤ) (ends : Time) (b : B)
      → token hash b ≡ none
      → (said_unit (create_token_sql db now hash role scope by max_uses ends b).0 ≡ created)
        × ((other : Text)
            → token other (create_token_sql db now hash role scope by max_uses ends b).1 ≡ (
                if hash == other
                then some (record {
                  role = role;
                  max_uses = max_uses;
                  use_count = pos 0;
                  expires_at = column_text (expiry_value db ends);
                })
                else token other b))
  unfolding create_token_sql
  create_new now hash role scope by max_uses ends b h =
      let value = expiry_value db ends in
      let (id, e) = law.inserts now hash role scope by max_uses value b h in
      let (said, after_) = checked-done (text "store: create token: ") id _ e in
      (
        said,
        λ other.
            ap (token other) after_ ∙ law.inserted now hash other role scope by max_uses value b h,
      )

  -- The row of a new token is the in-memory token's.
  new_row :
      (now : Time) (hash : Text) (role : Role) (scope by max_uses : ℤ) (ends : Time)
      (s : MemoryStore)
      → stored db (made now hash role scope by max_uses ends s) ≡ record {
        role = role;
        max_uses = max_uses;
        use_count = pos 0;
        expires_at = column_text (expiry_value db ends);
      }
  unfolding expiry_value
  new_row now hash role scope by max_uses ends s = ground arith

  new_rows :
      (now : Time) (hash other : Text) (role : Role) (scope by max_uses : ℤ) (ends : Time)
      (s : MemoryStore) (b : B)
      → Agrees db token s b
      → (if hash == other
          then some (record {
            role = role;
            max_uses = max_uses;
            use_count = pos 0;
            expires_at = column_text (expiry_value db ends);
          })
          else token other b)
        ≡ stored_all db (
            lookup other
              (insert hash (made now hash role scope by max_uses ends s) s.tokens_by_hash))
  new_rows now hash other role scope by max_uses ends s b h =
      let t = made now hash role scope by max_uses ends s in
      rw (lookup-insert hash other t s.tokens_by_hash) (elim (Bool-cases (hash == other)) [
        | inl e ↦ rw e (ap some (sym (new_row now hash role scope by max_uses ends s)))
        | inr e ↦ rw e (h.same other)
      ])

  create_token-Agrees :
      (now : Time) (hash : Text) (role : Role) (scope by max_uses : ℤ) (ends : Time)
      (s : MemoryStore) (b : B)
      → IsStorable ends
      → Agrees db token s b
      → (said_unit (create_token_sql db now hash role scope by max_uses ends b).0
          ≡ said_unit (create_token now hash role scope by max_uses ends s).0)
        × Agrees db token
            (create_token now hash role scope by max_uses ends s).1
            (create_token_sql db now hash role scope by max_uses ends b).1
  unfolding create_token error_text
  create_token-Agrees now hash role scope by max_uses ends s b whole h =
      elim (Option-cases (lookup hash s.tokens_by_hash)) [
        | inr (t, e) ↦
            let there = h.same hash ∙ ap (stored_all db) e in
            let taken : is_some (token hash b) ≡ true = ap is_some there in
            let (why, fails) = create_taken now hash role scope by max_uses ends b taken in
            rw (fails, e, create_token) (refl, h)
        | inl e ↦
            let none_ : token hash b ≡ none = h.same hash ∙ ap (stored_all db) e in
            let (said, rows) = create_new now hash role scope by max_uses ends b none_ in
            rw (said, e, create_token)
              (
                refl,
                record {
                  same = λ other.
                      rows other ∙ new_rows now hash other role scope by max_uses ends s b h;
                  whole = λ other u k. ground (
                    arith,
                    lookup-insert hash other (made now hash role scope by max_uses ends s)
                        s.tokens_by_hash,
                    h.whole other u,
                  );
                },
              )
      ]

-- A call on the tokens: at a time, a token is made or presented.
pub data TokenCall : Type 0 where
  creates : Time → Text → Role → ℤ → ℤ → ℤ → Time → TokenCall
  presents : Time → Text → TokenCall

-- A token that is made expires before the year 10000, and not within the first second of year 1, or
-- never.
abbrev pub IsDated : TokenCall → Type 0
IsDated (creates now hash role scope by max_uses ends) = IsExpiry ends
IsDated (presents now hash) = Unit

-- The call with the expiry cut to a whole second.
abbrev pub cut_call : TokenCall → TokenCall
cut_call (creates now hash role scope by max_uses ends) =
    creates now hash role scope by max_uses (cut ends)
cut_call (presents now hash) = presents now hash

-- What the callers see of a sequence of calls on the in-memory store.
unfoldable pub answers_mem : List TokenCall → MemoryStore → List Said
answers_mem [] s = []
answers_mem (creates now hash role scope by max_uses ends ∷ calls) s =
    let (r, s1) = create_token now hash role scope by max_uses ends s in
    said_unit r ∷ answers_mem calls s1
answers_mem (presents now hash ∷ calls) s =
    let (r, s1) = validate_token now hash s in said_role r ∷ answers_mem calls s1

module _ {B : Type 0} (db : Database B) where
  -- The same, of the database.
  unfoldable pub answers_sql : List TokenCall → B → List Said
  answers_sql [] b = []
  answers_sql (creates now hash role scope by max_uses ends ∷ calls) b =
      let (r, b1) = create_token_sql db now hash role scope by max_uses ends b in
      said_unit r ∷ answers_sql calls b1
  answers_sql (presents now hash ∷ calls) b =
      let (r, b1) = validate_token_sql db now hash b in said_role r ∷ answers_sql calls b1

  module _ (token : Text → B → Option TokenRow) (law : IsTokenTable db token) where
    -- The database keeps the cut expiry.
    create_token_sql-cut :
        (now : Time) (hash : Text) (role : Role) (scope by max_uses : ℤ) (ends : Time) (b : B)
        → IsExpiry ends
        → create_token_sql db now hash role scope by max_uses (cut ends) b
          ≡ create_token_sql db now hash role scope by max_uses ends b
    unfolding create_token_sql expiry_value
    create_token_sql-cut now hash role scope by max_uses ends b h =
        rw (create_token_sql, is_zero-cut ends h, law.formats ends h.1) refl

    answers_same :
        (calls : List TokenCall) (s : MemoryStore) (b : B)
        → All IsDated calls
        → Agrees db token s b
        → answers_sql calls b ≡ answers_mem (map cut_call calls) s
    unfolding answers_sql answers_mem
    answers_same [] s b dated h = refl
    answers_same (creates now hash role scope by max_uses ends ∷ calls) s b dated h =
        let (same, later) =
          create_token-Agrees db token law now hash role scope by max_uses (cut ends) s b
            (cut-IsStorable ends dated.0) h in
        let kept = create_token_sql-cut now hash role scope by max_uses ends b dated.0 in
        rw (← kept, same, answers_same calls _ _ dated.1 later) refl
    answers_same (presents now hash ∷ calls) s b dated h =
        let (same, later) = validate_token-Agrees db token law now hash s b h in
        rw (same, answers_same calls _ _ dated.1 later) refl

    -- For tokens made and presented in any order, from no tokens on: a database that keeps its table
    -- of tokens as documented accepts and refuses, with the roles and the errors, as a new in-memory
    -- store does for which the expiries are cut to whole seconds. Expiries are before the year 10000
    -- and not within the first second of year 1.
    pub answers_sql-answers_mem :
        (calls : List TokenCall) (b : B)
        → All IsDated calls
        → ((hash : Text) → token hash b ≡ none)
        → answers_sql calls b ≡ answers_mem (map cut_call calls) new_memory
    unfolding new_memory lookup
    answers_sql-answers_mem calls b dated empty =
        answers_same calls new_memory b dated
          (record { same = λ hash. empty hash; whole = λ hash t h. cc })
