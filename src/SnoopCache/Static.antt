-- ===== src/SnoopCache/Static.antt =====
-- The static mrouters that the polling thread still has to write to the kernel.
use opx_nas_linux.Prelude.{
  String, Bool, true, false, none, List, [], ◌∷◌, ◌≡◌, refl, arith, ◌==◌, ◌||◌, ◌&&◌, not,
  eq_string, All, Bool-cases, inl, inr,
}
use opx_nas_linux.Snoop.{Shell}
use opx_nas_linux.SnoopCache.{
  Cache, mrouter_path, apply_mrouters, get_all_static_mrouter_cache, apply_static_mrouter_configs,
}
use opx_nas_linux.SnoopCache.Names.{remove_ifname_tag}
use opx_nas_linux.SnoopCache.Search.Laws.{is_name, search-raw_str}
use opx_nas_linux.SnoopCache.Sets.{member, discard, eq_pair, member-discard}
use opx_nas_linux.SnoopCache.Info.{McastRouterInfo, mcast_router_info, router_key}

-- The name in the key is the raw name without its tag, and the names can be told apart in a text.
pub record IsRouterInfo (m : McastRouterInfo) : Type 0 where
  pub untagged : m.if_name ≡ remove_ifname_tag m.raw_if_name
  pub bridge : is_name m.br_name ≡ true
  pub interface : is_name m.raw_if_name ≡ true

abbrev names_of : List McastRouterInfo → List (String × String)
names_of [] = []
names_of (m ∷ ms) = (m.br_name, m.raw_if_name) ∷ names_of ms

get_all_static_mrouter_cache-names_of :
    (ms : List McastRouterInfo)
    → All IsRouterInfo ms
    → get_all_static_mrouter_cache ms ≡ names_of ms
unfolding get_all_static_mrouter_cache
get_all_static_mrouter_cache-names_of [] h = refl
get_all_static_mrouter_cache-names_of (m ∷ ms) (h0, h) =
    rw
      (
        search-raw_str m h0.bridge h0.interface,
        get_all_static_mrouter_cache,
        get_all_static_mrouter_cache-names_of ms h,
      )
      refl

module _ (sh : Shell) where
  open sh use {State, update_file_system}

  -- The elements are written one after another. Is a write for this key done?
  abbrev pub is_written : (br if_name : String) → List McastRouterInfo → State → Bool
  is_written br if_name [] st = false
  is_written br if_name (m ∷ ms) st =
      let (written, st1) = update_file_system (mrouter_path sh m.br_name m.raw_if_name) 2 st in
      (router_key m == (br, if_name) && written) || is_written br if_name ms st1

  apply_mrouters-member :
      (ms : List McastRouterInfo) (s : Cache) (st : State)
      → All IsRouterInfo ms
      → (br if_name : String)
      → member router_key (br, if_name) (apply_mrouters sh (names_of ms) s st).0.static_mrouter_set
        ≡ (member router_key (br, if_name) s.static_mrouter_set
            && not (is_written br if_name ms st))
  unfolding apply_mrouters mcast_router_info
  apply_mrouters-member [] s st h br if_name = ground arith
  apply_mrouters-member (m ∷ ms) s st (h0, h) br if_name =
      let path = mrouter_path sh m.br_name m.raw_if_name in
      let st1 = (update_file_system path 2 st).1 in
      let key = router_key (mcast_router_info m.br_name m.raw_if_name none) in
      let applied = record s { static_mrouter_set = discard router_key key s.static_mrouter_set } in
      let same = h0.untagged in
      elim (Bool-cases (update_file_system path 2 st).0) [
        | inl done ↦ ground (
          arith,
          done,
          same,
          apply_mrouters-member ms applied st1 h br if_name,
          member-discard router_key (br, if_name) key s.static_mrouter_set,
          eq_string.same_iff br m.br_name,
          eq_string.same_iff m.br_name br,
          eq_string.same_iff m.if_name if_name,
          eq_string.same_iff if_name m.if_name,
        )
        | inr failed ↦ ground (arith, failed, same, apply_mrouters-member ms s st1 h br if_name)
      ]

  -- Where the names of the static mrouters are not empty and have no space, and the name in each key is the
  -- raw name without its tag, applying them writes their
  -- files one after another, takes those out of the set for which a write is done, and leaves the others
  -- in it, whatever the file system does.
  pub apply_static_mrouter_configs-member :
      (s : Cache) (st : State)
      → All IsRouterInfo s.static_mrouter_set
      → (br if_name : String)
      → member router_key (br, if_name) (apply_static_mrouter_configs sh s st).0.static_mrouter_set
        ≡ (member router_key (br, if_name) s.static_mrouter_set
            && not (is_written br if_name s.static_mrouter_set st))
  unfolding apply_static_mrouter_configs
  apply_static_mrouter_configs-member s st h br if_name =
      rw (get_all_static_mrouter_cache-names_of s.static_mrouter_set h)
        (apply_mrouters-member s.static_mrouter_set s st h br if_name)
