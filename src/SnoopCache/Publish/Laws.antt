-- ===== src/SnoopCache/Publish/Laws.antt =====
-- Publishing with the cached ids of the VLANs publishes what it would with every id looked up anew.
use mathlib.Core.List.{append-nil, append_assoc}
use opx_nas_linux.Prelude.{
  ℕ, String, Option, none, some, List, [], ◌∷◌, ◌++◌, ◌≡◌, sym, ap, ◌∙◌, arith, lookup, lookup-put,
  eq_string, Option-cases, inl, inr,
}
use opx_nas_linux.SnoopCache.Info.{Op, Item, item_br_name}
use opx_nas_linux.SnoopCache.Publish.{
  Feed, item_event, get_vlan_id, publish_event, announcements, IsCached,
}

module _ (vlan_info : String → Option ℕ) where
  get_vlan_id-vlan_info :
      (br_name : String) (s : Feed)
      → IsCached vlan_info s
      → (get_vlan_id vlan_info br_name s).0 ≡ vlan_info br_name
  unfolding get_vlan_id
  get_vlan_id-vlan_info br_name s h = elim (Option-cases (lookup br_name s.vlan_map)) [
    | inr (vlan_id, at) ↦ ground (arith, h br_name vlan_id at)
    | inl absent ↦ elim (Option-cases (vlan_info br_name)) [
      | inl missing ↦ ground arith
      | inr (vlan_id, at) ↦ ground arith
    ]
  ]

  get_vlan_id-published :
      (br_name : String) (s : Feed) → (get_vlan_id vlan_info br_name s).1.published ≡ s.published
  unfolding get_vlan_id
  get_vlan_id-published br_name s = ground arith

  get_vlan_id-IsCached :
      (br_name : String) (s : Feed)
      → IsCached vlan_info s
      → IsCached vlan_info (get_vlan_id vlan_info br_name s).1
  unfolding get_vlan_id
  get_vlan_id-IsCached br_name s h name id is = elim (Option-cases (lookup br_name s.vlan_map)) [
    | inr (vlan_id, at) ↦ ground (arith, h name id)
    | inl absent ↦ elim (Option-cases (vlan_info br_name)) [
      | inl missing ↦ ground (arith, h name id)
      | inr (vlan_id, at) ↦ ground (
        arith,
        h name id,
        lookup-put br_name name vlan_id s.vlan_map,
        eq_string.same_iff br_name name,
      )
    ]
  ]

  -- The feed after an item.
  step : Item → Op → Feed → Feed
  step item op s =
      let s1 = (get_vlan_id vlan_info (item_br_name item) s).1 in
      elim (vlan_info (item_br_name item)) [
        | none ↦ s1
        | some vlan_id ↦ record {
          vlan_map = s1.vlan_map;
          published = s1.published ++ (item_event item vlan_id op ∷ []);
        }
      ]

  publish_event-step :
      (item : Item) (items : List Item) (op : Op) (s : Feed)
      → IsCached vlan_info s
      → publish_event vlan_info (item ∷ items) op s
        ≡ publish_event vlan_info items op (step item op s)
  unfolding publish_event step
  publish_event-step item items op s h =
      ground (arith, get_vlan_id-vlan_info (item_br_name item) s h)

  step-IsCached :
      (item : Item) (op : Op) (s : Feed)
      → IsCached vlan_info s
      → IsCached vlan_info (step item op s)
  unfolding step
  step-IsCached item op s h =
      let cached = get_vlan_id-IsCached (item_br_name item) s h in
      elim (Option-cases (vlan_info (item_br_name item))) [
        | inl missing ↦ rw (missing, step) cached
        | inr (vlan_id, at) ↦ rw (at, step) cached
      ]

  step-announcements :
      (item : Item) (items : List Item) (op : Op) (s : Feed)
      → (step item op s).published ++ announcements vlan_info items op
        ≡ s.published ++ announcements vlan_info (item ∷ items) op
  unfolding step
  step-announcements item items op s =
      let same = get_vlan_id-published (item_br_name item) s in
      elim (Option-cases (vlan_info (item_br_name item))) [
        | inl missing ↦ ground (arith, same)
        | inr (vlan_id, at) ↦ ground (
          arith,
          same,
          append_assoc s.published (item_event item vlan_id op ∷ [])
              (announcements vlan_info items op),
        )
      ]

  -- Publishing adds the announcements, in their order.
  pub publish_event-announcements :
      (items : List Item) (op : Op) (s : Feed)
      → IsCached vlan_info s
      → (publish_event vlan_info items op s).published
        ≡ s.published ++ announcements vlan_info items op
  unfolding publish_event
  publish_event-announcements [] op s h = sym (append-nil s.published)
  publish_event-announcements (item ∷ items) op s h =
      ap (λ t. t.published) (publish_event-step item items op s h)
      ∙ publish_event-announcements items op (step item op s) (step-IsCached item op s h)
      ∙ step-announcements item items op s

  pub publish_event-IsCached :
      (items : List Item) (op : Op) (s : Feed)
      → IsCached vlan_info s
      → IsCached vlan_info (publish_event vlan_info items op s)
  unfolding publish_event
  publish_event-IsCached [] op s h = h
  publish_event-IsCached (item ∷ items) op s h =
      rw (publish_event-step item items op s h)
        (publish_event-IsCached items op (step item op s) (step-IsCached item op s h))
