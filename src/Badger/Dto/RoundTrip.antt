-- ===== src/Badger/Dto/RoundTrip.antt =====
-- A task survives the way through its row: `toDelegateTask` after `toDelegateTaskData`, of
-- internal/infrastructure/db/badger/delegate_repo.go.
use fulmine.Base.{
  ◌<◌, ◌≡◌, refl, sym, ap, ◌∙◌, String, Text, List, [], ◌∷◌, Option, some, ok, map, codes_discrete,
  All, if_pos, if_neg,
}
use fulmine.Base.Maps.{get, put, get-put}
use fulmine.Clock.{unix, time_unix}
use fulmine.Domain.{Outpoint, outpoint_discrete, DelegateTask}
use fulmine.Badger.Key.{key}
use fulmine.Badger.Key.RoundTrip.{cut_last_colon-key, scan_uint32-decimal}
use fulmine.Badger.Dto.{
  to_outpoint_json, to_forfeit_json, to_delegate_task_data, to_inputs, to_outpoint, to_forfeit_txs,
  to_delegate_task,
}

module _ (new_hash : Text → Option Text) where
  -- A `wire.OutPoint`: the text of its hash is read back as that hash, and its index is a uint32.
  pub record IsOutpoint (o : Outpoint) : Type 0 where
    pub hash_read_back : new_hash o.hash ≡ some o.hash
    pub index_fits : o.index < 4294967296

  -- The outpoint that a key of the forfeit map is read as is the one that the key was printed from, for a wire
  -- outpoint.
  pub to_outpoint-key :
      (o : Outpoint) → IsOutpoint o → to_outpoint new_hash (key o.hash o.index) ≡ ok o
  unfolding to_outpoint
  to_outpoint-key o h = rw (
    cut_last_colon-key o.hash o.index,
    scan_uint32-decimal o.index h.index_fits,
    h.hash_read_back,
  )

  -- The round trip of the inputs.
  pub to_inputs-map :
      (os : List Outpoint)
      → All IsOutpoint os
      → to_inputs new_hash (map to_outpoint_json os) ≡ ok os
  unfolding to_inputs
  to_inputs-map [] h = refl
  to_inputs-map (o ∷ os) h = rw (h.0.hash_read_back, to_inputs-map os h.1)

  -- Two outpoints with one key are one.
  pub key-injective :
      (o p : Outpoint)
      → IsOutpoint o
      → IsOutpoint p
      → key o.hash o.index ≡ key p.hash p.index
      → o ≡ p
  key-injective o p h k e =
      cc (to_outpoint-key o h, to_outpoint-key p k, ap (to_outpoint new_hash) e)

  -- A map of keys, each made from an outpoint.
  abbrev pub IsKeyed : Text × String → Type 0
  IsKeyed (k, tx) = (o : Outpoint) × IsOutpoint o × (k ≡ key o.hash o.index)

  IsKeyed-put :
      (o : Outpoint) (tx : String) (m : List (Text × String))
      → IsOutpoint o
      → All IsKeyed m
      → All IsKeyed (put codes_discrete (key o.hash o.index) tx m)
  unfolding put
  IsKeyed-put o tx [] h k = ((o, h, refl), tt)
  IsKeyed-put o tx ((j, v) ∷ m) h k = elim (codes_discrete j (key o.hash o.index)) [
    | yes e ↦ rw (if_pos _ e) ((o, h, refl), k.1)
    | no e ↦ rw (if_neg _ e) (k.0, IsKeyed-put o tx m h k.1)
  ]

  -- The conversion to keys keeps the map.
  abbrev pub HasOutpoint : Outpoint × String → Type 0
  HasOutpoint (o, tx) = IsOutpoint o

  to_forfeit_json-IsKeyed :
      (m : List (Outpoint × String)) → All HasOutpoint m → All IsKeyed (to_forfeit_json m)
  unfolding to_forfeit_json
  to_forfeit_json-IsKeyed [] h = tt
  to_forfeit_json-IsKeyed ((o, tx) ∷ m) h =
      IsKeyed-put o tx (to_forfeit_json m) h.0 (to_forfeit_json-IsKeyed m h.1)

  get-to_forfeit_json :
      (m : List (Outpoint × String)) (p : Outpoint)
      → All HasOutpoint m
      → IsOutpoint p
      → get codes_discrete (key p.hash p.index) (to_forfeit_json m) ≡ get outpoint_discrete p m
  unfolding to_forfeit_json get
  get-to_forfeit_json [] p h k = refl
  get-to_forfeit_json ((o, tx) ∷ m) p h k =
      rw (get-put codes_discrete (key o.hash o.index) (key p.hash p.index) tx (to_forfeit_json m))
        (elim (outpoint_discrete o p) [
          | yes e ↦ rw (if_pos _ e, if_pos _ (ap (λ (x : Outpoint). key x.hash x.index) e))
          | no e ↦
              rw (if_neg _ e, if_neg _ (λ q. e (key-injective o p h.0 k q)))
                (get-to_forfeit_json m p h.1 k)
        ])

  HasOutpoint-put :
      (o : Outpoint) (tx : String) (m : List (Outpoint × String))
      → IsOutpoint o
      → All HasOutpoint m
      → All HasOutpoint (put outpoint_discrete o tx m)
  unfolding put
  HasOutpoint-put o tx [] h k = (h, tt)
  HasOutpoint-put o tx ((p, v) ∷ m) h k = elim (outpoint_discrete p o) [
    | yes e ↦ rw (if_pos _ e) (h, k.1)
    | no e ↦ rw (if_neg _ e) (k.0, HasOutpoint-put o tx m h k.1)
  ]

  -- The conversion back succeeds and keeps the map too.
  abbrev SameMap : List (Text × String) → List (Outpoint × String) → Type 0
  SameMap j m =
      (p : Outpoint)
      → IsOutpoint p
      → get outpoint_discrete p m ≡ get codes_discrete (key p.hash p.index) j

  to_forfeit_txs-SameMap :
      (j : List (Text × String))
      → All IsKeyed j
      → (m : List (Outpoint × String)) × (to_forfeit_txs new_hash j ≡ ok m)
        × SameMap j m
        × All HasOutpoint m
  unfolding to_forfeit_txs get
  to_forfeit_txs-SameMap [] h = ([], refl, λ p k. refl, tt)
  to_forfeit_txs-SameMap ((k, tx) ∷ j) ((o, ho, e), h) =
      let (m, done, same, good) = to_forfeit_txs-SameMap j h in
      (
        put outpoint_discrete o tx m,
        rw (e, to_outpoint-key o ho, done),
        λ p hp. rw (get-put outpoint_discrete o p tx m) (elim (outpoint_discrete o p) [
          | yes q ↦ rw (if_pos _ q, if_pos _ (e ∙ ap (λ (x : Outpoint). key x.hash x.index) q))
          | no q ↦
              rw (if_neg _ q, if_neg _ (λ r. q (key-injective o p ho hp (sym e ∙ r)))) (same p hp)
        ]),
        HasOutpoint-put o tx m ho good,
      )

  -- A task of wire types.
  pub record IsStorable (t : DelegateTask) : Type 0 where
    pub good_inputs : All IsOutpoint t.intent.inputs
    pub good_forfeits : All HasOutpoint t.forfeit_txs

  -- A task of wire types that is written to its row and read back has the same fields; the time it is scheduled
  -- for loses its fraction of a second, and its forfeit map gives the same transaction for each
  -- outpoint, all of them outpoints of wire transactions.
  pub to_delegate_task-to_delegate_task_data :
      (t : DelegateTask)
      → IsStorable t
      → (m : List (Outpoint × String)) × (to_delegate_task new_hash (to_delegate_task_data t)
          ≡ ok (record t { forfeit_txs = m; scheduled_at = time_unix (unix t.scheduled_at) }))
        × ((p : Outpoint)
            → IsOutpoint p
            → get outpoint_discrete p m ≡ get outpoint_discrete p t.forfeit_txs)
        × All HasOutpoint m
  unfolding to_delegate_task to_delegate_task_data
  to_delegate_task-to_delegate_task_data t h =
      let (m, done, same, good) =
        to_forfeit_txs-SameMap (to_forfeit_json t.forfeit_txs)
          (to_forfeit_json-IsKeyed t.forfeit_txs h.good_forfeits) in
      (
        m,
        rw (to_inputs-map t.intent.inputs h.good_inputs, done),
        λ p hp. same p hp ∙ get-to_forfeit_json t.forfeit_txs p h.good_forfeits hp,
        good,
      )
