-- ===== src/Bridges/Linux/Removal.antt =====
-- What unblocking a port does to the rules of the INPUT chain.
use port_sentinel.Base.Text.{lower}
use port_sentinel.Bus.{remove_one}
use port_sentinel.Base.{
  true, ◌&&◌, nat_keys, list_keys, text_keys, List, String, ℕ, ◌≡◌, [], ◌==◌, false, text_keys,
  if◌then◌else◌, contains, ◌∷◌, Bool-cases, inl, inr, refl, arith, ap, ◌∙◌, ◌⊎◌, same_refl, sym,
}
use port_sentinel.Bridges.{is_done, known_protocol, Outcome}
use port_sentinel.Bridges.Linux.{
  fw_cmd, delete_rule, Command, LinuxBridge, rule, comment_of, delete, block_port, unblock_port,
}
use port_sentinel.Bridges.Linux.Rules.{
  IsIptables, is_added, is_valid, protocol_of, block_rule, IsFree, block_port_correct,
}

-- The deletion of a rule that is in the chain exits with 0.
abbrev pub CanDelete :
    {S : Type 0} → (Command → S → Outcome × S) → LinuxBridge → (S → List (List String)) → Type 0
CanDelete {S = S} run bridge chain =
    (spec : List String) (s : S)
    → contains (chain s) spec ≡ true
    → is_done (run (fw_cmd bridge (delete_rule spec)) s).0 ≡ true

module _ {S : Type 0} (run : Command → S → Outcome × S) (bridge : LinuxBridge) (system : String)
    (chain : S → List (List String)) (laws : IsIptables run bridge chain)
    (can_delete : CanDelete run bridge chain) where
  remove_one_absent :
      (spec : List String) (rules : List (List String))
      → contains rules spec ≡ false
      → remove_one spec rules ≡ rules
  unfolding remove_one contains
  remove_one_absent spec [] h = refl
  remove_one_absent spec (r ∷ rules) h = elim (Bool-cases (r == spec)) [
    | inl y ↦ absurd (ground (arith, y, h))
    | inr n ↦
        let h' : contains rules spec ≡ false = ground (arith, n, h) in
        rw (n, remove_one_absent spec rules h') refl
  ]

  -- However a deletion ends, the first equal rule is gone then.
  deleted :
      (spec : List String) (s : S)
      → chain (run (fw_cmd bridge (delete_rule spec)) s).1 ≡ remove_one spec (chain s)
  deleted spec s = elim (Bool-cases (contains (chain s) spec)) [
    | inl y ↦ laws.delete spec s ∙ rw (can_delete spec s y) refl
    | inr n ↦
        laws.delete spec s
        ∙ elim (Bool-cases (is_done (run (fw_cmd bridge (delete_rule spec)) s).0)) [
          | inl y ↦ rw y refl
          | inr m ↦ rw m (sym (remove_one_absent spec (chain s) n))
        ]
  ]

  abbrev written : ℕ → String → String → List String
  written port protocol prefix = rule protocol port (comment_of prefix port protocol)

  -- The four deletions of `unblock_port`.
  abbrev removed_all : ℕ → List (List String) → List (List String)
  removed_all port rules = remove_one (written port "udp" "Sentinel") (
      remove_one (written port "udp" "Vigilant") (
        remove_one (written port "tcp" "Sentinel")
          (remove_one (written port "tcp" "Vigilant") rules)))

  unblock_port-chain :
      (port : ℕ) (s : S)
      → chain (unblock_port run bridge system port s).1
        ≡ (if system == "Linux" then removed_all port (chain s) else chain s)
  unfolding unblock_port
  unblock_port-chain port s = elim (Bool-cases (system == "Linux")) [
    | inr n ↦ rw n refl
    | inl y ↦
        let s1 = delete run bridge system port "tcp" "Vigilant" s in
        let s2 = delete run bridge system port "tcp" "Sentinel" s1 in
        let s3 = delete run bridge system port "udp" "Vigilant" s2 in
        rw y (
          deleted (written port "udp" "Sentinel") s3
          ∙ ap (remove_one (written port "udp" "Sentinel")) (
              deleted (written port "udp" "Vigilant") s2
              ∙ ap (remove_one (written port "udp" "Vigilant")) (
                  deleted (written port "tcp" "Sentinel") s1
                  ∙ ap (remove_one (written port "tcp" "Sentinel"))
                      (deleted (written port "tcp" "Vigilant") s))))
  ]

  removed_all-free :
      (port : ℕ) (rules : List (List String)) → IsFree port rules → removed_all port rules ≡ rules
  removed_all-free port rules free =
      rw
        (
          remove_one_absent (written port "tcp" "Vigilant") rules free.0,
          remove_one_absent (written port "tcp" "Sentinel") rules free.1.0,
          remove_one_absent (written port "udp" "Vigilant") rules free.1.1.0,
          remove_one_absent (written port "udp" "Sentinel") rules free.1.1.1.0,
        )
        refl

  remove_one-head :
      (spec : List String) (rules : List (List String)) → remove_one spec (spec ∷ rules) ≡ rules
  unfolding remove_one
  remove_one-head spec rules = rw (same_refl spec) refl

  remove_one-other :
      (spec other : List String) (rules : List (List String))
      → (other == spec) ≡ false
      → remove_one spec (other ∷ rules) ≡ other ∷ remove_one spec rules
  unfolding remove_one
  remove_one-other spec other rules h = rw h refl

  removed_all-tcp :
      (port : ℕ) (rules : List (List String))
      → IsFree port rules
      → removed_all port (block_rule port "tcp" ∷ rules) ≡ rules
  removed_all-tcp port rules free =
      let own = written port "tcp" "Vigilant" in
      ap
        (λ l. remove_one (written port "udp" "Sentinel") (
          remove_one (written port "udp" "Vigilant")
            (remove_one (written port "tcp" "Sentinel") l)))
        (remove_one-head own rules ∙ sym (remove_one_absent own rules free.0))
      ∙ removed_all-free port rules free

  removed_all-udp :
      (port : ℕ) (rules : List (List String))
      → IsFree port rules
      → removed_all port (block_rule port "udp" ∷ rules) ≡ rules
  removed_all-udp port rules free =
      let own = written port "udp" "Vigilant" in
      rw
        (
          remove_one-other (written port "tcp" "Vigilant") own rules refl,
          remove_one_absent (written port "tcp" "Vigilant") rules free.0,
          remove_one-other (written port "tcp" "Sentinel") own rules refl,
          remove_one_absent (written port "tcp" "Sentinel") rules free.1.0,
          remove_one-head own rules,
        )
        (remove_one_absent (written port "udp" "Sentinel") rules free.1.1.1.0)

  protocol_cases :
      (protocol : String) → (protocol_of protocol ≡ "tcp") ⊎ (protocol_of protocol ≡ "udp")
  unfolding known_protocol
  protocol_cases protocol = elim (Bool-cases (lower protocol == lower "tcp")) [
    | inl y ↦ rw y (inl refl)
    | inr n ↦ elim (Bool-cases (lower protocol == lower "udp")) [
      | inl y ↦ rw (n, y) (inr refl)
      | inr m ↦ rw (n, m) (inl refl)
    ]
  ]

  removed_all-block :
      (port : ℕ) (protocol : String) (rules : List (List String))
      → IsFree port rules
      → removed_all port (block_rule port (protocol_of protocol) ∷ rules) ≡ rules
  removed_all-block port protocol rules free = elim (protocol_cases protocol) [
    | inl e ↦ rw e (removed_all-tcp port rules free)
    | inr e ↦ rw e (removed_all-udp port rules free)
  ]

  -- On a firewall that behaves as iptables, and that deletes a rule that is in the chain when it is
  -- asked to: if none of the four rules of a port is in the chain, that is, for tcp or udp and under
  -- the old name or the new one, then blocking and unblocking the port leaves the chain as it was,
  -- whatever comes of blocking.
  pub unblock_port-block_port :
      (port : ℕ) (protocol : String) (s : S)
      → IsFree port (chain s)
      → chain
          (unblock_port run bridge system port (block_port run bridge system port protocol s).1).1
        ≡ chain s
  unblock_port-block_port port protocol s free =
      let mid = (block_port run bridge system port protocol s).1 in
      let spec = block_rule port (protocol_of protocol) in
      let adds = is_valid system port protocol && is_added run bridge system chain laws spec s in
      let (answered, left, there) =
        block_port_correct run bridge system chain laws port protocol s in
      unblock_port-chain port mid ∙ elim (Bool-cases (system == "Linux")) [
        | inr n ↦ rw n (left ∙ rw n refl)
        | inl y ↦ rw y (
            ap (removed_all port) left ∙ elim (Bool-cases adds) [
              | inl v ↦ rw v (removed_all-block port protocol (chain s) free)
              | inr v ↦ rw v (removed_all-free port (chain s) free)
            ])
      ]
