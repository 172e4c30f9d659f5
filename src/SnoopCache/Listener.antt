-- ===== src/SnoopCache/Listener.antt =====
-- Who listens to the events of McastSnoopCacheMgr knows its mrouters.
use opx_nas_linux.Prelude.{
  ℕ, String, Bool, false, Option, none, some, List, [], ◌∷◌, ◌++◌, map, ◌≡◌, refl, ap, ◌∙◌, arith,
  ◌==◌, ◌||◌, ◌&&◌, not, eq_nat, eq_string, eq_option, Option-cases, inl, inr,
}
use opx_nas_linux.SnoopCache.{Cache, Routes, update_mrouter_set, update_group_set, update_cache}
use opx_nas_linux.SnoopCache.Info.{
  McastRouterInfo, router_key, McastGroupInfo, group_key, Op, Item, EventData, Event,
}
use opx_nas_linux.SnoopCache.Sets.{
  member, add, discard, difference, eq_pair, member-add, member-discard,
}
use opx_nas_linux.SnoopCache.Publish.{Feed, publish_event, announcements, IsCached, item_event}
use opx_nas_linux.SnoopCache.Publish.Laws.{publish_event-announcements, publish_event-IsCached}

-- An mrouter as the events name it: the id of the VLAN and the interface.
abbrev pub View : Type 0
View = List (ℕ × String)

abbrev pub port : ℕ × String → ℕ × String
port p = p

-- What a listener that keeps the mrouters does with an event.
unfoldable pub receive : Event → View → View
unfolding add discard
receive (Event.igmp (EventData.mrouter_interface vlan_id if_name) Op.create) view =
    add port (vlan_id, if_name) view
receive (Event.igmp (EventData.mrouter_interface vlan_id if_name) Op.delete) view =
    discard port (vlan_id, if_name) view
receive (Event.igmp (EventData.group_interface vlan_id interface address) op) view = view
receive (Event.mld evt_data op) view = view

unfoldable pub listen : List Event → View → View
unfolding receive
listen [] view = view
listen (event ∷ events) view = listen events (receive event view)

listen-append :
    (old new : List Event) (view : View) → listen (old ++ new) view ≡ listen new (listen old view)
unfolding listen
listen-append [] new view = refl
listen-append (event ∷ old) new view = listen-append old new (receive event view)

module _ (vlan_info : String → Option ℕ) where
  -- Has the set an mrouter that the events name so?
  unfoldable pub has_router : ℕ → String → List McastRouterInfo → Bool
  has_router vlan_id if_name [] = false
  has_router vlan_id if_name (m ∷ ms) =
      (vlan_info m.br_name == some vlan_id && m.if_name == if_name) || has_router vlan_id if_name ms

  listen-deleted :
      (ms : List McastRouterInfo) (view : View) (vlan_id : ℕ) (if_name : String)
      → member port
          (vlan_id, if_name)
          (listen (announcements vlan_info (map Item.router ms) Op.delete) view)
        ≡ (member port (vlan_id, if_name) view && not (has_router vlan_id if_name ms))
  unfolding listen has_router item_event
  listen-deleted [] view vlan_id if_name = ground arith
  listen-deleted (m ∷ ms) view vlan_id if_name = elim (Option-cases (vlan_info m.br_name)) [
    | inl missing ↦ ground (arith, missing, listen-deleted ms view vlan_id if_name)
    | inr (id, at) ↦ ground (
      arith,
      at,
      listen-deleted ms (discard port (id, m.if_name) view) vlan_id if_name,
      member-discard port (vlan_id, if_name) (id, m.if_name) view,
      eq_nat.same_iff id vlan_id,
      eq_nat.same_iff vlan_id id,
      eq_string.same_iff m.if_name if_name,
      eq_string.same_iff if_name m.if_name,
    )
  ]

  listen-created :
      (ms : List McastRouterInfo) (view : View) (vlan_id : ℕ) (if_name : String)
      → member port
          (vlan_id, if_name)
          (listen (announcements vlan_info (map Item.router ms) Op.create) view)
        ≡ (member port (vlan_id, if_name) view || has_router vlan_id if_name ms)
  unfolding listen has_router item_event
  listen-created [] view vlan_id if_name = ground arith
  listen-created (m ∷ ms) view vlan_id if_name = elim (Option-cases (vlan_info m.br_name)) [
    | inl missing ↦ ground (arith, missing, listen-created ms view vlan_id if_name)
    | inr (id, at) ↦ ground (
      arith,
      at,
      listen-created ms (add port (id, m.if_name) view) vlan_id if_name,
      member-add port (vlan_id, if_name) (id, m.if_name) view,
    )
  ]

  listen-groups :
      (gs : List McastGroupInfo) (op : Op) (view : View)
      → listen (announcements vlan_info (map Item.group gs) op) view ≡ view
  unfolding listen item_event
  listen-groups [] op view = refl
  listen-groups (g ∷ gs) op view = elim (Option-cases (vlan_info g.br_name)) [
    | inl missing ↦ ground (arith, missing, listen-groups gs op view)
    | inr (id, at) ↦ ground (arith, at, listen-groups gs op view)
  ]

  -- The listener hears of the deleted items first, then of the created ones.
  listen-publish_event :
      (del_set add_set : List Item) (s : Feed)
      → IsCached vlan_info s
      → listen
          (publish_event vlan_info add_set Op.create
            (publish_event vlan_info del_set Op.delete s)).published
          []
        ≡ listen
            (announcements vlan_info add_set Op.create)
            (listen (announcements vlan_info del_set Op.delete) (listen s.published []))
  listen-publish_event del_set add_set s cached =
      let gone = announcements vlan_info del_set Op.delete in
      let come = announcements vlan_info add_set Op.create in
      let kept = publish_event-IsCached vlan_info del_set Op.delete s cached in
      let deleted = publish_event-announcements vlan_info del_set Op.delete s cached in
      let created =
        publish_event-announcements vlan_info add_set Op.create
          (publish_event vlan_info del_set Op.delete s) kept in
      ap (λ l. listen l []) (created ∙ ap (λ l. l ++ come) deleted)
      ∙ listen-append (s.published ++ gone) come []
      ∙ ap (listen come) (listen-append s.published gone [])

  -- The listener's view after all that has been published names the mrouters of the cache.
  unfoldable pub IsUpToDate : Cache → Type 0
  unfolding listen has_router member
  IsUpToDate s =
      (vlan_id : ℕ) (if_name : String)
      → member port (vlan_id, if_name) (listen s.feed.published [])
        ≡ has_router vlan_id if_name s.mrouter_set

  update_mrouter_set-IsCached :
      (new_set : List McastRouterInfo) (s : Cache)
      → IsCached vlan_info s.feed
      → IsCached vlan_info (update_mrouter_set vlan_info new_set s).feed
  unfolding update_mrouter_set
  update_mrouter_set-IsCached new_set s cached =
      let del_set = map Item.router (difference router_key s.mrouter_set new_set) in
      let add_set = map Item.router (difference router_key new_set s.mrouter_set) in
      publish_event-IsCached vlan_info add_set Op.create
        (publish_event vlan_info del_set Op.delete s.feed)
        (publish_event-IsCached vlan_info del_set Op.delete s.feed cached)

  module _
      (distinct : (br1 br2 : String) (vlan_id : ℕ)
        → vlan_info br1 ≡ some vlan_id
        → vlan_info br2 ≡ some vlan_id
        → br1 ≡ br2) where
    -- The bridge is the only one with its VLAN.
    has_router-member :
        (m : McastRouterInfo) (vlan_id : ℕ) (ms : List McastRouterInfo)
        → vlan_info m.br_name ≡ some vlan_id
        → has_router vlan_id m.if_name ms ≡ member router_key (router_key m) ms
    unfolding has_router member
    has_router-member m vlan_id [] at = refl
    has_router-member m vlan_id (x ∷ ms) at = elim (Option-cases (vlan_info x.br_name)) [
      | inl missing ↦ ground (
        arith,
        missing,
        has_router-member m vlan_id ms at,
        eq_string.same_iff x.br_name m.br_name,
      )
      | inr (id, found) ↦ ground (
        arith,
        found,
        has_router-member m vlan_id ms at,
        eq_string.same_iff x.br_name m.br_name,
        distinct x.br_name m.br_name vlan_id,
        eq_nat.same_iff id vlan_id,
      )
    ]

    has_router-difference :
        (vlan_id : ℕ) (if_name : String) (old new : List McastRouterInfo)
        → has_router vlan_id if_name (difference router_key old new)
          ≡ (has_router vlan_id if_name old && not (has_router vlan_id if_name new))
    unfolding has_router difference
    has_router-difference vlan_id if_name [] new = ground arith
    has_router-difference vlan_id if_name (m ∷ old) new =
        elim (Option-cases (vlan_info m.br_name)) [
          | inl missing ↦ ground (arith, missing, has_router-difference vlan_id if_name old new)
          | inr (id, at) ↦ ground (
            arith,
            at,
            has_router-difference vlan_id if_name old new,
            has_router-member m vlan_id new,
            eq_nat.same_iff id vlan_id,
            eq_string.same_iff m.if_name if_name,
          )
        ]

    -- What an update of the mrouters publishes brings the listener's view from the old set to the new.
    listen-update_mrouter_set :
        (new_set : List McastRouterInfo) (s : Cache)
        → IsCached vlan_info s.feed
        → IsUpToDate s
        → IsUpToDate (update_mrouter_set vlan_info new_set s)
    unfolding IsUpToDate update_mrouter_set
    listen-update_mrouter_set new_set s cached known vlan_id if_name =
        let del_set = difference router_key s.mrouter_set new_set in
        let add_set = difference router_key new_set s.mrouter_set in
        let view = listen s.feed.published [] in
        let rest = listen (announcements vlan_info (map Item.router del_set) Op.delete) view in
        ground (
          arith,
          listen-publish_event (map Item.router del_set) (map Item.router add_set) s.feed cached,
          known vlan_id if_name,
          listen-created add_set rest vlan_id if_name,
          listen-deleted del_set view vlan_id if_name,
          has_router-difference vlan_id if_name s.mrouter_set new_set,
          has_router-difference vlan_id if_name new_set s.mrouter_set,
        )

    listen-update_group_set :
        (new_set : List McastGroupInfo) (s : Cache)
        → IsCached vlan_info s.feed
        → IsUpToDate s
        → IsUpToDate (update_group_set vlan_info new_set s)
    unfolding IsUpToDate update_group_set
    listen-update_group_set new_set s cached known vlan_id if_name =
        let del_set = difference group_key s.group_set new_set in
        let add_set = difference group_key new_set s.group_set in
        let view = listen s.feed.published [] in
        let rest = listen (announcements vlan_info (map Item.group del_set) Op.delete) view in
        ground (
          arith,
          listen-publish_event (map Item.group del_set) (map Item.group add_set) s.feed cached,
          known vlan_id if_name,
          listen-groups add_set Op.create rest,
          listen-groups del_set Op.delete view,
        )

    -- When no two bridges have the id of a VLAN, a listener that knows the mrouters of the cache with
    -- their VLANs knows them again after the events of a poll, whatever was read and even when nothing
    -- could be read.
    pub update_cache-IsUpToDate :
        (mc_snoop_info : Option Routes) (s : Cache)
        → IsUpToDate s
        → IsUpToDate (update_cache vlan_info mc_snoop_info s)
    unfolding update_cache IsUpToDate
    update_cache-IsUpToDate none s known = known
    update_cache-IsUpToDate (some routes) s known =
        let cleared = record s { feed = record { vlan_map = []; published = s.feed.published } } in
        let s1 = update_mrouter_set vlan_info routes.mrouter cleared in
        let empty : IsCached vlan_info cleared.feed = (λ br vlan_id at. ground arith) in
        listen-update_group_set routes.group s1
          (update_mrouter_set-IsCached routes.mrouter cleared empty)
          (listen-update_mrouter_set routes.mrouter cleared empty known)
