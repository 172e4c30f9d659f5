-- ===== src/Tests/Kernel.antt =====
-- A kernel that keeps its chains as the manual of iptables says, for the examples.
use opx_nas_linux.Prelude.{
  ℕ, ◌+◌, ◌-◌, ◌≡◌, ◌≢◌, ◌↔◌, refl, String, Bool, true, false, Option, none, some, List, [], ◌∷◌,
  arith, length, insert_at, delete_at, set, ◌==◌, ◌&&◌, if◌then◌else◌, leb, eq_string, Bool-cases,
  inl, inr,
}
use opx_nas_linux.Rule.Incoming.{Net}
use opx_nas_linux.Iptables.{System, Command, ChainArgs}
use opx_nas_linux.Iptables.Laws.{ChainRef, ChainLaws}

abbrev texts_eq : List String → List String → Bool
texts_eq [] [] = true
texts_eq [] (y ∷ ys) = false
texts_eq (x ∷ xs) [] = false
texts_eq (x ∷ xs) (y ∷ ys) = x == y && texts_eq xs ys

texts_eq_iff : (xs ys : List String) → (texts_eq xs ys ≡ true) ↔ (xs ≡ ys)
texts_eq_iff [] [] = ground arith
texts_eq_iff [] (y ∷ ys) = ground arith
texts_eq_iff (x ∷ xs) [] = ground arith
texts_eq_iff (x ∷ xs) (y ∷ ys) = ground (arith, eq_string.same_iff x y, texts_eq_iff xs ys)

unfoldable ref_eq : ChainRef → ChainRef → Bool
ref_eq (p, c) (q, d) = texts_eq p q && c == d

ref_eq_iff : (a b : ChainRef) → (ref_eq a b ≡ true) ↔ (a ≡ b)
unfolding ref_eq
ref_eq_iff (p, c) (q, d) = ground (arith, texts_eq_iff p q, eq_string.same_iff c d)

abbrev pub Chains : Type 0
Chains = ChainRef → List (List String)

-- the chain after a command, or `none` if the command fails
unfoldable pub edit : ChainArgs → List String → List (List String) → Option (List (List String))
edit ChainArgs.append w c = some (insert_at (length c) w c)
edit (ChainArgs.insert n) w c = if leb n (length c + 1) then some (insert_at (n - 1) w c) else none
edit (ChainArgs.delete n) w c = if leb n (length c) then some (delete_at (n - 1) c) else none
edit (ChainArgs.replace n) w c = if leb n (length c) then some (set c (n - 1) w) else none
edit ChainArgs.delete_matching w c = none
edit ChainArgs.check w c = none

unfoldable pub write : ChainRef → Option (List (List String)) → Chains → Bool × Chains
unfolding ref_eq
write ref none k = (false, k)
write ref (some c) k = (true, λ x. if ref_eq ref x then c else k x)

unfoldable pub run : Command → Chains → Bool × Chains
unfolding edit write
run cmd k =
    let ref : ChainRef = (cmd.ipt_prefix, cmd.chain_name) in
    write ref (edit cmd.chain_args cmd.flt_args (k ref)) k

abbrev pub net : Net
net = record { inet_ntop = λ af addr. "192.0.2.1"; network_ip = λ af addr len. some addr }

abbrev pub system : System
system = record {
  Kernel = Chains;
  run_command = run;
  netns_show = λ k. some ("blue" ∷ []);
  search_id = λ token. none;
  list_rule = λ p c n k. none;
  find_stats_info = λ line. (none, none);
  net = net;
  vrfs = record {
    vrf_id = λ v. none;
    veth_ip_str = λ af v. none;
    veth_ip = λ af v. some (127 ∷ 100 ∷ 100 ∷ 2 ∷ []);
    private_ip = λ af v. some (127 ∷ 100 ∷ 100 ∷ 1 ∷ []);
  };
}

write_ok :
    (ref : ChainRef) (o : Option (List (List String))) (k : Chains) (c : List (List String))
    → (write ref o k).0 ≡ true
    → ((d : List (List String)) → o ≡ some d → d ≡ c)
    → (write ref o k).1 ref ≡ c
unfolding write
write_ok ref none k c h same = cc
write_ok ref (some d) k c h same = ground (arith, ref_eq_iff ref ref, same d)

write_failed :
    (ref x : ChainRef) (o : Option (List (List String))) (k : Chains)
    → (write ref o k).0 ≡ false
    → (write ref o k).1 x ≡ k x
unfolding write
write_failed ref x none k h = refl
write_failed ref x (some d) k h = cc

write_other :
    (ref x : ChainRef) (o : Option (List (List String))) (k : Chains)
    → ref ≢ x
    → (write ref o k).1 x ≡ k x
unfolding write
write_other ref x none k h = refl
write_other ref x (some d) k h = elim (Bool-cases (ref_eq ref x)) [
  | inl e ↦ absurd (h ((ref_eq_iff ref x).0 e))
  | inr e ↦ rw e refl
]

minus_one : (n : ℕ) → n + 1 - 1 ≡ n
minus_one n = omega arith

pub insert_ok :
    (p : List String) (c : String) (n : ℕ) (w : List String) (k : Chains)
    → (run
        (record {
          ipt_prefix = p;
          chain_name = c;
          chain_args = ChainArgs.insert (n + 1);
          flt_args = w;
        })
        k).0
      ≡ true
    → (run
          (record {
            ipt_prefix = p;
            chain_name = c;
            chain_args = ChainArgs.insert (n + 1);
            flt_args = w;
          })
          k).1
        (p, c)
      ≡ insert_at n w (k (p, c))
unfolding run
insert_ok p c n w k h =
    write_ok (p, c) (edit (ChainArgs.insert (n + 1)) w (k (p, c))) k (insert_at n w (k (p, c))) h
      (λ d e. ground (arith, minus_one n))

pub delete_ok :
    (p : List String) (c : String) (n : ℕ) (w : List String) (k : Chains)
    → (run
        (record {
          ipt_prefix = p;
          chain_name = c;
          chain_args = ChainArgs.delete (n + 1);
          flt_args = w;
        })
        k).0
      ≡ true
    → (run
          (record {
            ipt_prefix = p;
            chain_name = c;
            chain_args = ChainArgs.delete (n + 1);
            flt_args = w;
          })
          k).1
        (p, c)
      ≡ delete_at n (k (p, c))
unfolding run
delete_ok p c n w k h =
    write_ok (p, c) (edit (ChainArgs.delete (n + 1)) w (k (p, c))) k (delete_at n (k (p, c))) h
      (λ d e. ground (arith, minus_one n))

pub replace_ok :
    (p : List String) (c : String) (n : ℕ) (w : List String) (k : Chains)
    → (run
        (record {
          ipt_prefix = p;
          chain_name = c;
          chain_args = ChainArgs.replace (n + 1);
          flt_args = w;
        })
        k).0
      ≡ true
    → (run
          (record {
            ipt_prefix = p;
            chain_name = c;
            chain_args = ChainArgs.replace (n + 1);
            flt_args = w;
          })
          k).1
        (p, c)
      ≡ set (k (p, c)) n w
unfolding run
replace_ok p c n w k h =
    write_ok (p, c) (edit (ChainArgs.replace (n + 1)) w (k (p, c))) k (set (k (p, c)) n w) h
      (λ d e. ground (arith, minus_one n))

pub failed :
    (cmd : Command) (k : Chains) (ref : ChainRef)
    → (run cmd k).0 ≡ false
    → (run cmd k).1 ref ≡ k ref
unfolding run
failed cmd k ref h =
    write_failed (cmd.ipt_prefix, cmd.chain_name) ref
      (edit cmd.chain_args cmd.flt_args (k (cmd.ipt_prefix, cmd.chain_name))) k h

pub other :
    (cmd : Command) (k : Chains) (ref : ChainRef)
    → (cmd.ipt_prefix, cmd.chain_name) ≢ ref
    → (run cmd k).1 ref ≡ k ref
unfolding run
other cmd k ref h =
    write_other (cmd.ipt_prefix, cmd.chain_name) ref
      (edit cmd.chain_args cmd.flt_args (k (cmd.ipt_prefix, cmd.chain_name))) k h

abbrev pub system_laws : ChainLaws system
system_laws = record {
  chain = λ k ref. k ref;
  insert_law = insert_ok;
  delete_law = delete_ok;
  replace_law = replace_ok;
  failure_law = failed;
  other_law = other;
}
