-- ===== src/Tests/Start.antt =====
-- The start of the server and the tokens of the database, at concrete arguments.
use gospeak.Prelude.{
  map, ap, ℕ, ◌≡◌, ◌≢◌, refl, inl, inr, true, List, [], ◌∷◌, none, some, arith, is_some,
  if◌then◌else◌, ◌==◌, eqb_text, eqb_text_iff, text_eq, Text, text, Map, lookup, insert,
  lookup-insert, Int.ℤ, Int.pos, Int.add_one, Option-cases,
}
use gospeak.Model.{role_admin, role_user}
use gospeak.Crypto.{hex, hash_token}
use gospeak.Store.{ok}
use gospeak.Store.Memory.{memory_store, new_memory, validate_token, has_tokens, list_channels}
use gospeak.Store.Sql.{integer, txt, Reply, done, bad, Row, Database}
use gospeak.Store.Sql.Tokens.{TokenRow, insert_token}
use gospeak.Store.Sql.Table.{cut, IsTokenTable, columns, column_text}
use gospeak.Store.Sql.Runs.{
  TokenCall, cut_call, creates, presents, answers_sql, answers_mem, answers_sql-answers_mem,
}
use gospeak.Server.Start.{Startup, prepare}
use gospeak.Server.Start.FirstRun.{prepare_first}
use gospeak.Tests.Server.{started, yaml, same_text}

abbrev startup : Startup
startup = record {
  voice_key = some (1 ∷ []);
  random = some (171 ∷ []);
  channels_file = [];
  file = none;
}

prepare_first_example :
    let (said, begun) = prepare memory_store same_text yaml 1000 startup started in
    (said ≡ (none, some (hex (171 ∷ []))))
    × ((validate_token 2000 (hash_token same_text (hex (171 ∷ []))) begun.store).0 ≡ ok role_admin)
    × (has_tokens begun.store ≡ true)
    × (list_channels begun.store ≢ [])
unfolding new_memory
prepare_first_example =
    prepare_first same_text yaml 1000 2000 startup (1 ∷ []) (171 ∷ []) started refl refl refl

-- A database that has only the table of tokens; a time is written as one number.
abbrev Table : Type 0
Table = Map Text TokenRow

abbrev insert_row : Row → Table → Reply ℤ × Table
insert_row (txt hash ∷ integer role ∷ integer scope ∷ integer by ∷ integer max_uses ∷ ends ∷ []) m =
    if is_some (lookup hash m)
    then (bad (text "constraint failed: UNIQUE constraint failed: tokens.hash (2067)"), m)
    else (
      done (pos 1),
      insert hash
          (record {
            role = role;
            max_uses = max_uses;
            use_count = pos 0;
            expires_at = column_text ends;
          })
          m,
    )
insert_row other m = (bad [], m)

abbrev count_row : Row → Table → Reply ℤ × Table
count_row (txt hash ∷ []) m = elim (lookup hash m) [
  | none ↦ (done (pos 0), m)
  | some r ↦ (done (pos 0), insert hash (record r { use_count = add_one r.use_count }) m)
]
count_row other m = (bad [], m)

abbrev select_row : Row → Table → Reply (List Row)
select_row (txt hash ∷ []) m = elim (lookup hash m) [
  | none ↦ done []
  | some r ↦ done (columns r ∷ [])
]
select_row other m = bad []

abbrev read_time : Text → Reply ℕ
read_time (at ∷ []) = done at
read_time other = bad []

unfoldable table : Database Table
table = record {
  exec =
      λ now sql args m. if eqb_text sql insert_token then insert_row args m else count_row args m;
  query = λ sql args m. select_row args m;
  query_at = λ now sql args m. bad [];
  begin = λ m. done tt;
  commit = λ m. (done tt, m);
  scan_error = λ r. [];
  format_time = λ at. cut at ∷ [];
  parse_time = read_time;
}

count_row_lem :
    (hash other : Text) (m : Table)
    → lookup other (count_row (txt hash ∷ []) m).1 ≡ (
        if hash == other
        then elim (lookup other m) [
          | none ↦ none
          | some r ↦ some (record r { use_count = add_one r.use_count })
        ]
        else lookup other m)
count_row_lem hash other m = elim (Option-cases (lookup hash m)) [
  | inl e ↦ ground (arith, eqb_text_iff hash other)
  | inr (r, e) ↦
      let used = record r { use_count = add_one r.use_count } in
      ground (arith, eqb_text_iff hash other, lookup-insert hash other used m)
]

table-IsTokenTable : IsTokenTable table lookup
unfolding table eqb_text
table-IsTokenTable = record {
  selects = λ hash m. ground arith;
  inserts = λ now hash role scope by max_uses ends m h. (pos 1, ground arith);
  inserted = λ now hash other role scope by max_uses ends m h. ground (
    arith,
    lookup-insert hash other
        (record {
          role = role;
          max_uses = max_uses;
          use_count = pos 0;
          expires_at = column_text ends;
        })
        m,
  );
  is_unique = λ now hash role scope by max_uses ends m h.
      (text "constraint failed: UNIQUE constraint failed: tokens.hash (2067)", ground arith);
  counts = λ now hash m. (pos 0, ground arith);
  counted = λ now hash other m. count_row_lem hash other m;
  begins = λ m. refl;
  commits = λ m. refl;
  committed = λ hash m. refl;
  formats = λ at h. ap (λ n. n ∷ []) (omega arith);
  reads = λ at h. ap done (omega arith);
}

abbrev calls : List TokenCall
calls =
    creates 0 (text "a") role_user (pos 0) (pos 1) (pos 1) 5_300_000_000
    ∷ creates 0 (text "a") role_admin (pos 0) (pos 1) (pos 1) 0
    ∷ presents 1 (text "a")
    ∷ presents 2 (text "a")
    ∷ presents 6_000_000_000 (text "a")
    ∷ presents 3 (text "b")
    ∷ []

answers_sql-answers_mem_example :
    answers_sql table calls [] ≡ answers_mem (map cut_call calls) new_memory
unfolding lookup
answers_sql-answers_mem_example =
    answers_sql-answers_mem table lookup table-IsTokenTable calls [] (omega arith) (λ hash. refl)
