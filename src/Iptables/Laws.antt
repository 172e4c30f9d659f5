-- ===== src/Iptables/Laws.antt =====
-- What iptables does to a chain, as its manual says, and what `proc_rule` then does.
use opx_nas_linux.Prelude.{
  ℕ, ◌+◌, ◌≡◌, ◌≢◌, String, true, false, some, List, insert_at, delete_at, set, ◌==◌, ◌&&◌,
  eq_string,
}
use opx_nas_linux.Rule.{RuleType, Rule, eq_rule_type}
use opx_nas_linux.Iptables.{
  System, Command, ChainArgs, Op, get_chain_name, get_ipt_cmd_prefix, proc_rule,
}
use opx_nas_linux.Iptables.Args.{get_flt_args}

-- A chain is addressed by the first words of the command (program, namespace, table) and its name.
abbrev pub ChainRef : Type 0
ChainRef = List String × String

abbrev pub chain_ref : Rule → ChainRef
chain_ref r =
    (get_ipt_cmd_prefix r.rule_type r.af r.vrf_name, get_chain_name r.vrf_name r.rule_type)

-- The manual of iptables: the rules of a chain, as their words, under -I, -D, -R with a position;
-- a command that fails changes no chain, and none changes another chain.
pub record ChainLaws (sys : System) : Type 0 where
  pub chain : sys.Kernel → ChainRef → List (List String)
  pub insert_law :
      (p : List String) (c : String) (n : ℕ) (w : List String) (k : sys.Kernel)
      → (sys.run_command
          (record {
            ipt_prefix = p;
            chain_name = c;
            chain_args = ChainArgs.insert (n + 1);
            flt_args = w;
          })
          k).0
        ≡ true
      → chain
          (sys.run_command
            (record {
              ipt_prefix = p;
              chain_name = c;
              chain_args = ChainArgs.insert (n + 1);
              flt_args = w;
            })
            k).1
          (p, c)
        ≡ insert_at n w (chain k (p, c))
  pub delete_law :
      (p : List String) (c : String) (n : ℕ) (w : List String) (k : sys.Kernel)
      → (sys.run_command
          (record {
            ipt_prefix = p;
            chain_name = c;
            chain_args = ChainArgs.delete (n + 1);
            flt_args = w;
          })
          k).0
        ≡ true
      → chain
          (sys.run_command
            (record {
              ipt_prefix = p;
              chain_name = c;
              chain_args = ChainArgs.delete (n + 1);
              flt_args = w;
            })
            k).1
          (p, c)
        ≡ delete_at n (chain k (p, c))
  pub replace_law :
      (p : List String) (c : String) (n : ℕ) (w : List String) (k : sys.Kernel)
      → (sys.run_command
          (record {
            ipt_prefix = p;
            chain_name = c;
            chain_args = ChainArgs.replace (n + 1);
            flt_args = w;
          })
          k).0
        ≡ true
      → chain
          (sys.run_command
            (record {
              ipt_prefix = p;
              chain_name = c;
              chain_args = ChainArgs.replace (n + 1);
              flt_args = w;
            })
            k).1
          (p, c)
        ≡ set (chain k (p, c)) n w
  pub failure_law :
      (cmd : Command) (k : sys.Kernel) (ref : ChainRef)
      → (sys.run_command cmd k).0 ≡ false
      → chain (sys.run_command cmd k).1 ref ≡ chain k ref
  pub other_law :
      (cmd : Command) (k : sys.Kernel) (ref : ChainRef)
      → (cmd.ipt_prefix, cmd.chain_name) ≢ ref
      → chain (sys.run_command cmd k).1 ref ≡ chain k ref

module _ (sys : System) (laws : ChainLaws sys) where
  open laws use {chain}

  abbrev pub words : Rule → List String
  words r = get_flt_args sys.net sys.vrfs r

  -- The rule is of a kind that `proc_rule` handles.
  abbrev pub Supported : Rule → Type 0
  Supported r = (r.vrf_name == "default" && r.rule_type == RuleType.out_ip) ≡ false

  -- A successful 'insert' at a position puts the rule's words there.
  pub proc_insert-true :
      (r : Rule) (n : ℕ) (k : sys.Kernel)
      → Supported r
      → (proc_rule sys Op.insert r (some n) k).0 ≡ true
      → chain (proc_rule sys Op.insert r (some n) k).1 (chain_ref r)
        ≡ insert_at n (words r) (chain k (chain_ref r))
  unfolding proc_rule
  proc_insert-true r n k ok h = rw ok (laws.insert_law _ _ n (words r) k (rw ok at h))

  pub proc_insert-false :
      (r : Rule) (n : ℕ) (k : sys.Kernel) (ref : ChainRef)
      → Supported r
      → (proc_rule sys Op.insert r (some n) k).0 ≡ false
      → chain (proc_rule sys Op.insert r (some n) k).1 ref ≡ chain k ref
  unfolding proc_rule
  proc_insert-false r n k ref ok h = rw ok (laws.failure_law _ k ref (rw ok at h))
