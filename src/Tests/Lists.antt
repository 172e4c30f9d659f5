-- ===== src/Tests/Lists.antt =====
-- Examples of rule lists.
use opx_nas_linux.Prelude.{
  true, false, none, some, List, [], ◌∷◌, ◌≡◌, refl, map, take, drop, insert_at, delete_at, All,
  lookup, put,
}
use opx_nas_linux.RuleList.{
  RuleList, empty, Key, key, key_lt, insert, remove_by_id, remove_rule, find_by_id, bisect_right,
}
use opx_nas_linux.RuleList.Bisect.{upper_bound, bisect_right-eq-upper_bound}
use opx_nas_linux.RuleList.Invariant.{IsValid}
use opx_nas_linux.RuleList.Methods.{empty-IsValid, insert-IsValid, insert_place}
use opx_nas_linux.RuleList.Removal.{
  remove_by_id-IsValid, remove_rule-IsValid, remove_by_id_lem, remove_by_id-insert,
}
use opx_nas_linux.Rule.{Rule}
use opx_nas_linux.Rule.Incoming.{is_rule_equal}
use opx_nas_linux.Incoming.{incoming_class}
use opx_nas_linux.Tests.Rules.{ssh_rule}

abbrev pub ssh : Rule
ssh = record ssh_rule { rule_id = some 1 }

abbrev pub telnet : Rule
telnet = record ssh_rule { rule_id = some 2; dst_port = some 23 }

abbrev pub early : Rule
early = record ssh_rule { rule_id = some 3; dst_port = some 80; seq_num = 1 }

one : RuleList Rule
one = (insert incoming_class ssh empty).1

two : RuleList Rule
two = (insert incoming_class telnet one).1

one-IsValid : IsValid incoming_class one
unfolding one
one-IsValid = insert-IsValid incoming_class ssh empty (empty-IsValid incoming_class)

two-IsValid : IsValid incoming_class two
unfolding two
two-IsValid = insert-IsValid incoming_class telnet one one-IsValid

-- `telnet` goes behind `ssh`, which has the same sequence number; `early` goes in front.
places :
    ((insert incoming_class telnet one).0 ≡ some 1) × ((insert incoming_class early two).0 ≡ some 0)
unfolding one two insert is_rule_equal lookup put
places = (refl, refl)

-- A rule that is equal but for its ID is refused.
duplicate_refused : (insert incoming_class (record ssh { rule_id = some 9 }) two).0 ≡ none
unfolding one two insert is_rule_equal lookup put
duplicate_refused = refl

telnet_found : find_by_id incoming_class 2 two ≡ some (telnet, 1)
unfolding one two insert is_rule_equal find_by_id lookup put
telnet_found = refl

insert-IsValid_example : IsValid incoming_class (insert incoming_class early two).1
insert-IsValid_example = insert-IsValid incoming_class early two two-IsValid

insert_place_example :
    ((insert incoming_class early two).1.rules ≡ insert_at 0 early two.rules)
    × All
        (λ k. key_lt (key incoming_class early) k ≡ false)
        (take 0 (map (key incoming_class) two.rules))
    × All
        (λ k. key_lt (key incoming_class early) k ≡ true)
        (drop 0 (map (key incoming_class) two.rules))
insert_place_example = insert_place incoming_class early two two-IsValid places.1

remove_by_id-IsValid_example : IsValid incoming_class (remove_by_id incoming_class 1 two).1
remove_by_id-IsValid_example = remove_by_id-IsValid incoming_class 1 two two-IsValid

remove_rule-IsValid_example :
    IsValid incoming_class (remove_rule incoming_class (record ssh { rule_id = none }) two).1
remove_rule-IsValid_example =
    remove_rule-IsValid incoming_class (record ssh { rule_id = none }) two two-IsValid

remove_by_id_lem_example :
    ((remove_by_id incoming_class 2 two).0 ≡ some telnet)
    × ((remove_by_id incoming_class 2 two).1.rules ≡ delete_at 1 two.rules)
    × (find_by_id incoming_class 2 (remove_by_id incoming_class 2 two).1 ≡ none)
remove_by_id_lem_example = remove_by_id_lem incoming_class 2 two two-IsValid telnet_found

remove_by_id-insert_example :
    ((remove_by_id incoming_class 3 (insert incoming_class early two).1).0 ≡ some early)
    × ((remove_by_id incoming_class 3 (insert incoming_class early two).1).1.rules ≡ two.rules)
    × ((remove_by_id incoming_class 3 (insert incoming_class early two).1).1.seq_num_list
        ≡ two.seq_num_list)
remove_by_id-insert_example = remove_by_id-insert incoming_class early two two-IsValid refl places.1

abbrev keys : List Key
keys = (1, 0) ∷ (10, 3) ∷ (10, 3) ∷ (10, 7) ∷ []

bisect_right-eq-upper_bound_example : bisect_right keys (10, 3) ≡ upper_bound keys (10, 3)
bisect_right-eq-upper_bound_example =
    bisect_right-eq-upper_bound keys (10, 3)
      ((refl, (refl, (refl, tt))), ((refl, (refl, tt)), ((refl, tt), (tt, tt))))
