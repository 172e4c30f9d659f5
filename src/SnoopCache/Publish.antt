-- ===== src/SnoopCache/Publish.antt =====
-- `get_vlan_id` and `publish_event` of McastSnoopCacheMgr.
pub mod Laws
use opx_nas_linux.Prelude.{
  ℕ, String, Option, none, some, List, [], ◌∷◌, ◌++◌, ◌≡◌, refl, arith, lookup, put, lookup-put,
  eq_string, if◌then◌else◌, Option-cases, inl, inr,
}
use opx_nas_linux.SnoopCache.Info.{Op, Item, item_br_name, EventData, Event}

-- `vlan_map`, and what has been published so far
pub record Feed : Type 0 where
  pub vlan_map : List (String × ℕ)
  pub published : List Event

unfoldable pub item_event : Item → ℕ → Op → Event
item_event (Item.group g) vlan_id op =
    let evt_data = EventData.group_interface vlan_id g.if_name g.grp_ip_str in
    if g.is_igmp then Event.igmp evt_data op else Event.mld evt_data op
item_event (Item.router m) vlan_id op =
    Event.igmp (EventData.mrouter_interface vlan_id m.if_name) op

-- `_get_vlan_info` on the name of a bridge: the id of the first object that CPS has, if any
module _ (vlan_info : String → Option ℕ) where
  unfoldable pub get_vlan_id : String → Feed → Option ℕ × Feed
  unfolding lookup put
  get_vlan_id br_name s = elim (lookup br_name s.vlan_map) [
    | some vlan_id ↦ (some vlan_id, s)
    | none ↦ elim (vlan_info br_name) [
      | none ↦ (none, s)
      | some vlan_id ↦ (
        some vlan_id,
        record { vlan_map = put br_name vlan_id s.vlan_map; published = s.published },
      )
    ]
  ]

  unfoldable pub publish_event : List Item → Op → Feed → Feed
  unfolding get_vlan_id item_event
  publish_event [] op s = s
  publish_event (pub_item ∷ pub_set) op s =
      let (vlan_id, s1) = get_vlan_id (item_br_name pub_item) s in
      elim vlan_id [
        | none ↦ publish_event pub_set op s1
        | some vlan_id ↦ publish_event pub_set op (record {
          vlan_map = s1.vlan_map;
          published = s1.published ++ (item_event pub_item vlan_id op ∷ []);
        })
      ]

  -- What is to be published, with every bridge looked up anew.
  abbrev pub announcements : List Item → Op → List Event
  announcements [] op = []
  announcements (item ∷ items) op = elim (vlan_info (item_br_name item)) [
    | none ↦ announcements items op
    | some vlan_id ↦ item_event item vlan_id op ∷ announcements items op
  ]

  -- The map agrees with CPS.
  abbrev pub IsCached : Feed → Type 0
  IsCached s =
      (br_name : String) (vlan_id : ℕ)
      → lookup br_name s.vlan_map ≡ some vlan_id
      → vlan_info br_name ≡ some vlan_id
