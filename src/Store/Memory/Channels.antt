-- ===== src/Store/Memory/Channels.antt =====
-- Channels of pkg/store/memory.go.
use mathlib.Core.List.{Perm}
use gospeak.Prelude.{
  ℕ, suc, ◌<◌, ◌≡◌, refl, ◌⊎◌, inl, inr, true, false, none, some, arith, ◌==◌, if◌then◌else◌,
  values, lookup, insert, lookup-insert, lookup-delete, ℤ_eq, Int.ℤ, Int.pos, Int.eqb_ℤ_iff,
  Option-cases, Bool-cases, ◌∙◌, Int.ltb_ℤ_asymm, Int.ltb_ℤ_chain, Int.ltb_ℤ_antisymm,
}
use gospeak.Model
use gospeak.Model.{Channel, Time, validate}
use gospeak.Store.Sorting.{IsSorted, sort-perm, sort-IsSorted}
use gospeak.Store.{ok, err, invalid_channel}
use gospeak.Store.Memory.{
  MemoryStore, channel_less, create_channel, delete_channel, list_channels, get_channel,
}

-- Every stored channel stands under its own ID, which is below the counter, and is valid.
pub record ChannelsValid (s : MemoryStore) : Type 0 where
  pub channel_at :
      (i : ℤ) (ch : Channel)
      → get_channel i s ≡ some ch
      → (ch.id ≡ i) × (validate ch ≡ none) × ((n : ℕ) × (i ≡ pos n) × (n < s.next_channel_id))

-- An ID does not enter the validation of a channel.
validate-id :
    (ch : Channel) (i : ℤ) (t : Time)
    → validate (record ch { id = i; created_at = t }) ≡ validate ch
unfolding validate
validate-id ch i t = refl

fresh_id : (s : MemoryStore) → ChannelsValid s → get_channel (pos s.next_channel_id) s ≡ none
fresh_id s v = elim (Option-cases (get_channel (pos s.next_channel_id) s)) [
  | inl e ↦ e
  | inr (ch, e) ↦
      let (own, fine, (n, at_n, below)) = v.channel_at (pos s.next_channel_id) ch e in
      absurd (ground arith)
]

-- A channel that CreateChannel accepts is valid, and is stored with a new ID, under which it is
-- found from then on; every other channel is as before.
pub create_channel_lem :
    (now : Time) (ch c : Channel) (s s' : MemoryStore) (j : ℤ)
    → ChannelsValid s
    → create_channel now ch s ≡ (ok c, s')
    → (validate ch ≡ none)
      × (c ≡ record ch { id = pos s.next_channel_id; created_at = now })
      × (get_channel c.id s ≡ none)
      × (get_channel j s' ≡ (if c.id == j then some c else get_channel j s))
unfolding create_channel get_channel
create_channel_lem now ch c s s' j v e =
    ground (arith, fresh_id s v, lookup-insert (pos s.next_channel_id) j c s.channels_by_id)

-- CreateChannel refuses a channel exactly if it is invalid, and then changes nothing.
pub create_channel-err :
    (now : Time) (ch : Channel) (s : MemoryStore)
    → ((c : Channel) × ((create_channel now ch s).0 ≡ ok c) × (validate ch ≡ none))
      ⊎ ((e : Model.Error) × (validate ch ≡ some e)
          × (create_channel now ch s ≡ (err (invalid_channel e), s)))
unfolding create_channel
create_channel-err now ch s = elim (Option-cases (validate ch)) [
  | inl fine ↦
      inl (
        record ch { id = pos s.next_channel_id; created_at = now },
        rw (fine, create_channel),
        fine,
      )
  | inr (e, bad) ↦ inr (e, bad, rw (bad, create_channel))
]

-- A stored new channel keeps the store valid.
added-ChannelsValid :
    (c : Channel) (s : MemoryStore)
    → ChannelsValid s
    → validate c ≡ none
    → c.id ≡ pos s.next_channel_id
    → ChannelsValid (record s {
      next_channel_id = suc s.next_channel_id;
      channels_by_id = insert (pos s.next_channel_id) c s.channels_by_id;
    })
unfolding get_channel
added-ChannelsValid c s v fine own = record {
  channel_at = λ i d e. elim (Bool-cases (pos s.next_channel_id == i)) [
    | inl same ↦ (
      ground (arith, eqb_ℤ_iff (pos s.next_channel_id) i, added i),
      ground (arith, added i),
      (s.next_channel_id, ground (arith, eqb_ℤ_iff (pos s.next_channel_id) i), omega arith),
    )
    | inr other ↦
        let (own', fine', (n, at_n, below)) = v.channel_at i d (ground (arith, added i)) in
        (own', fine', (n, at_n, omega arith))
  ];
}
  where
    added :
        (i : ℤ)
        → lookup i (insert (pos s.next_channel_id) c s.channels_by_id)
          ≡ (if pos s.next_channel_id == i then some c else lookup i s.channels_by_id)
    added i = lookup-insert (pos s.next_channel_id) i c s.channels_by_id

-- CreateChannel keeps every stored channel valid and under its own ID.
pub create_channel-ChannelsValid :
    (now : Time) (ch : Channel) (s : MemoryStore)
    → ChannelsValid s
    → ChannelsValid (create_channel now ch s).1
unfolding create_channel
create_channel-ChannelsValid now ch s v = elim (Option-cases (validate ch)) [
  | inr (e, bad) ↦ rw (bad, create_channel) v
  | inl fine ↦
      rw (fine, create_channel)
        (added-ChannelsValid (record ch { id = pos s.next_channel_id; created_at = now }) s v
          (validate-id ch (pos s.next_channel_id) now ∙ fine) refl)
]

get_channel-delete_channel :
    (i j : ℤ) (s : MemoryStore)
    → get_channel j (delete_channel i s).1 ≡ (if i == j then none else get_channel j s)
unfolding get_channel delete_channel
get_channel-delete_channel i j s = lookup-delete i j s.channels_by_id

pub delete_channel-ChannelsValid :
    (i : ℤ) (s : MemoryStore) → ChannelsValid s → ChannelsValid (delete_channel i s).1
unfolding delete_channel get_channel
delete_channel-ChannelsValid i s v = record {
  channel_at = λ j d e. v.channel_at j d (ground (arith, lookup-delete i j s.channels_by_id));
}

channel_less-asym : (a b : Channel) → channel_less a b ≡ true → channel_less b a ≡ false
channel_less-asym a b h = ground (
  arith,
  eqb_ℤ_iff a.parent_id b.parent_id,
  eqb_ℤ_iff b.parent_id a.parent_id,
  ltb_ℤ_asymm a.id b.id,
  ltb_ℤ_asymm a.parent_id b.parent_id,
)

channel_less-chain :
    (c b a : Channel)
    → channel_less c b ≡ false
    → channel_less b a ≡ false
    → channel_less c a ≡ false
channel_less-chain c b a h k = ground (
  arith,
  eqb_ℤ_iff c.parent_id b.parent_id,
  eqb_ℤ_iff b.parent_id a.parent_id,
  eqb_ℤ_iff c.parent_id a.parent_id,
  ltb_ℤ_chain c.id b.id a.id,
  ltb_ℤ_chain c.parent_id b.parent_id a.parent_id,
  ltb_ℤ_antisymm c.parent_id b.parent_id,
  ltb_ℤ_antisymm b.parent_id a.parent_id,
)

-- ListChannels returns each stored channel once, in the order of the parents' IDs, and below one
-- parent in the order of the IDs.
pub list_channels_lem :
    (s : MemoryStore)
    → Perm (list_channels s) (values s.channels_by_id) × IsSorted channel_less (list_channels s)
unfolding list_channels
list_channels_lem s = (
  sort-perm channel_less (values s.channels_by_id),
  sort-IsSorted channel_less channel_less-asym channel_less-chain (values s.channels_by_id),
)
