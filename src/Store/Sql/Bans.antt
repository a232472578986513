-- ===== src/Store/Sql/Bans.antt =====
-- The bans of the database against those of the in-memory store: pkg/store/store.go and
-- pkg/store/memory.go.
use gospeak.Prelude.{
  map, ℕ, suc, ◌≡◌, refl, sym, Bool, true, ◌&&◌, ◌||◌, List, [], ◌∷◌, Option, none, some, arith,
  if◌then◌else◌, Text, ◌==◌, ℤ_eq, lookup, All, Int.ℤ, Int.pos, ltb,
}
use gospeak.Model.{Time, is_zero, after}
use gospeak.Store.{Result, ok}
use gospeak.Store.Memory.{MemoryStore, new_memory, create_ban, is_user_banned}
use gospeak.Store.Memory.Tokens.{BansBelow, create_ban-BansBelow, is_user_banned-create_ban}
use gospeak.Store.Sql.{Value, integer, txt, done, Database, first_row, scan_row, checked}
use gospeak.Store.Sql.Tokens.{
  insert_ban, count_bans, scan_count, is_counted, expiry_value, create_ban_sql, is_user_banned_sql,
}
use gospeak.Store.Sql.Table.{
  cut, IsExpiry, cut-IsStorable, is_zero-cut, column_text, IsStorable, IsBeforeYear10000,
}

-- The columns of a ban that a test of it reads.
pub record BanRow : Type 0 where
  pub user_id : ℤ
  pub expires_at : Option Text

-- The condition of the count, by the comparison of a text with datetime('now').
abbrev pub row_applies : (Text → Time → Bool) → Time → ℤ → BanRow → Bool
row_applies later now user_id r =
    r.user_id == user_id && elim r.expires_at [ none ↦ true | some at ↦ later at now ]

unfoldable pub count_rows : (Text → Time → Bool) → Time → ℤ → List BanRow → ℕ
count_rows later now user_id [] = 0
count_rows later now user_id (r ∷ rows) =
    let rest = count_rows later now user_id rows in
    if row_applies later now user_id r then suc rest else rest

-- What is used of the database: the rows of the table of bans, what the two statements on it do, and
-- that times are written without their parts of a second, and the texts of times in whole seconds are
-- ordered as the times.
pub record IsBanTable {B : Type 0} (db : Database B) (bans : B → List BanRow)
    (later : Text → Time → Bool) : Type 0 where
  pub counts :
      (now : Time) (user_id : ℤ) (b : B)
      → db.query_at now count_bans (integer user_id ∷ []) b
        ≡ done ((integer (pos (count_rows later now user_id (bans b))) ∷ []) ∷ [])
  pub inserts :
      (now : Time) (user_id by : ℤ) (ip reason : Text) (ends : Value) (b : B)
      → (id : ℤ) × ((db.exec now insert_ban
            (integer user_id ∷ txt ip ∷ txt reason ∷ integer by ∷ ends ∷ [])
            b).0
          ≡ done id)
  pub inserted :
      (now : Time) (user_id by : ℤ) (ip reason : Text) (ends : Value) (b : B)
      → bans
          (db.exec now insert_ban
            (integer user_id ∷ txt ip ∷ txt reason ∷ integer by ∷ ends ∷ [])
            b).1
        ≡ record { user_id = user_id; expires_at = column_text ends } ∷ bans b
  pub formats : (at : Time) → IsBeforeYear10000 at → db.format_time (cut at) ≡ db.format_time at
  pub compares :
      (at now : Time)
      → IsStorable at
      → IsBeforeYear10000 now
      → later (db.format_time at) now ≡ after at now

-- A call on the bans: at a time, a user is banned or asked for.
pub data BanCall : Type 0 where
  bans_user : Time → ℤ → Text → Text → ℤ → Time → BanCall
  asks : Time → ℤ → BanCall

abbrev pub IsDated : BanCall → Type 0
IsDated (bans_user now user_id ip reason by ends) = IsExpiry ends
IsDated (asks now user_id) = IsBeforeYear10000 now

-- The call with the end of the ban cut to a whole second.
abbrev pub cut_call : BanCall → BanCall
cut_call (bans_user now user_id ip reason by ends) = bans_user now user_id ip reason by (cut ends)
cut_call (asks now user_id) = asks now user_id

pub data BanAnswer : Type 0 where
  made : Result (Unit {0}) → BanAnswer
  told : Result Bool → BanAnswer

-- What the callers see of a sequence of calls on the in-memory store.
unfoldable pub bans_mem : List BanCall → MemoryStore → List BanAnswer
bans_mem [] s = []
bans_mem (bans_user now user_id ip reason by ends ∷ calls) s =
    let (r, s1) = create_ban now user_id ip reason by ends s in made r ∷ bans_mem calls s1
bans_mem (asks now user_id ∷ calls) s = told (ok (is_user_banned now user_id s)) ∷ bans_mem calls s

module _ {B : Type 0} (db : Database B) where
  -- The same, of the database.
  unfoldable pub bans_sql : List BanCall → B → List BanAnswer
  bans_sql [] b = []
  bans_sql (bans_user now user_id ip reason by ends ∷ calls) b =
      let (r, b1) = create_ban_sql db now user_id ip reason by ends b in made r ∷ bans_sql calls b1
  bans_sql (asks now user_id ∷ calls) b =
      told (is_user_banned_sql db now user_id b) ∷ bans_sql calls b

  module _ (bans : B → List BanRow) (later : Text → Time → Bool)
      (law : IsBanTable db bans later) where
    -- The two hold bans of the same users at the same times.
    record SameBans (s : MemoryStore) (b : B) : Type 0 where
      below : BansBelow s
      same :
          (now : Time) (user_id : ℤ)
          → IsBeforeYear10000 now
          → ltb 0 (count_rows later now user_id (bans b)) ≡ is_user_banned now user_id s

    asked :
        (now : Time) (user_id : ℤ) (b : B)
        → is_user_banned_sql db now user_id b ≡ ok (ltb 0 (count_rows later now user_id (bans b)))
    unfolding is_user_banned_sql first_row scan_row scan_count is_counted
    asked now user_id b = rw (is_user_banned_sql, law.counts now user_id b) refl

    banned :
        (now : Time) (user_id by : ℤ) (ip reason : Text) (ends : Time) (b : B)
        → ((create_ban_sql db now user_id ip reason by ends b).0 ≡ ok tt)
          × (bans (create_ban_sql db now user_id ip reason by ends b).1
              ≡ record { user_id = user_id; expires_at = column_text (expiry_value db ends) }
                ∷ bans b)
    unfolding create_ban_sql checked
    banned now user_id by ip reason ends b =
        let (id, done_at) = law.inserts now user_id by ip reason (expiry_value db ends) b in
        (
          rw (create_ban_sql, done_at) refl,
          rw (create_ban_sql, done_at)
              (law.inserted now user_id by ip reason (expiry_value db ends) b),
        )

    -- The row of a new ban counts for whom and as long as the ban holds in memory.
    row_applies-ban :
        (now : Time) (user_id other : ℤ) (ends : Time)
        → IsStorable ends
        → IsBeforeYear10000 now
        → row_applies later now other
            (record { user_id = user_id; expires_at = column_text (expiry_value db ends) })
          ≡ (user_id == other && (is_zero ends || after ends now))
    unfolding expiry_value
    row_applies-ban now user_id other ends h k = ground (arith, law.compares ends now h k)

    create_ban-SameBans :
        (now : Time) (user_id by : ℤ) (ip reason : Text) (ends : Time) (s : MemoryStore) (b : B)
        → IsStorable ends
        → SameBans s b
        → SameBans
            (create_ban now user_id ip reason by ends s).1
            (create_ban_sql db now user_id ip reason by ends b).1
    unfolding count_rows
    create_ban-SameBans now user_id by ip reason ends s b h v = record {
      below = create_ban-BansBelow now user_id ip reason by ends s v.below;
      same = λ at other k.
          rw
            (
              (banned now user_id by ip reason ends b).1,
              is_user_banned-create_ban now at user_id other ip reason by ends s v.below,
              count_rows,
              row_applies-ban at user_id other ends h k,
              sym (v.same at other k),
            )
            (ground arith);
    }

    -- The database keeps the cut end.
    create_ban_sql-cut :
        (now : Time) (user_id by : ℤ) (ip reason : Text) (ends : Time) (b : B)
        → IsExpiry ends
        → create_ban_sql db now user_id ip reason by (cut ends) b
          ≡ create_ban_sql db now user_id ip reason by ends b
    unfolding create_ban_sql expiry_value
    create_ban_sql-cut now user_id by ip reason ends b h =
        rw (create_ban_sql, is_zero-cut ends h, law.formats ends h.1) refl

    answers_same :
        (calls : List BanCall) (s : MemoryStore) (b : B)
        → All IsDated calls
        → SameBans s b
        → bans_sql calls b ≡ bans_mem (map cut_call calls) s
    unfolding bans_sql bans_mem
    answers_same [] s b h v = refl
    answers_same (bans_user now user_id ip reason by ends ∷ calls) s b h v =
        rw
          (
            ← create_ban_sql-cut now user_id by ip reason ends b h.0,
            (banned now user_id by ip reason (cut ends) b).0,
            answers_same calls _ _ h.1 (
                create_ban-SameBans now user_id by ip reason (cut ends) s b
                  (cut-IsStorable ends h.0) v),
          )
          (unfold create_ban in refl)
    answers_same (asks now user_id ∷ calls) s b h v =
        rw (asked now user_id b, v.same now user_id h.0, answers_same calls s b h.1 v) refl

    -- For bans and questions who is banned in any order, from no bans on: a database that keeps its
    -- table of bans as documented answers as a new in-memory store does for which the ends of the
    -- bans are cut to whole seconds. No time is after the year 9999, and no end is within the first
    -- second of year 1.
    pub bans_sql-bans_mem :
        (calls : List BanCall) (b : B)
        → All IsDated calls
        → bans b ≡ []
        → bans_sql calls b ≡ bans_mem (map cut_call calls) new_memory
    unfolding new_memory lookup count_rows is_user_banned
    bans_sql-bans_mem calls b h empty =
        answers_same calls new_memory b h
          (record { below = λ n le. refl; same = λ now user_id k. rw empty (refl) })
