-- ===== src/Tests/Firewalls.antt =====
-- The Linux bridge on a firewall of three rules.
use port_sentinel.Base.Text.{show}
use port_sentinel.Bridges.Linux.Listing.{is_ours}
use port_sentinel.Bus.{remove_one}
use port_sentinel.Base.Words.{
  codes, split_lines, occurs_in, first_word, strip, skip_spaces, read_number,
}
use port_sentinel.Bridges.Linux.Rules.{
  returned, IsIptables, IsFree, is_valid, is_there, is_added, block_rule, protocol_of,
  block_port_correct,
}
use port_sentinel.Bridges.Linux.Removal.{unblock_port-block_port}
use port_sentinel.Bridges.Linux.Cleanup.{
  IsListing, Deletes, without, Lists, cleanup_all_rules_correct,
}
use port_sentinel.Base.{
  ◌&&◌, not, Bool-cases, inl, inr, list_keys, ◌∷◌, some, List, ◌≡◌, String, [], true, ℕ, Bool,
  if◌then◌else◌, refl, ◌++◌, contains, ◌||◌, text_keys, All, false, keep,
}
use port_sentinel.Base.Result.{ok}
use port_sentinel.Bridges.{is_done, Outcome, finished}
use port_sentinel.Bridges.Linux.{
  FirewallAction, Command, LinuxBridge, new_bridge, rule, check_rule, insert_rule, delete_rule,
  list_rules, delete_line, block_port, unblock_port, cleanup_all_rules,
}

abbrev bridge : LinuxBridge
bridge = new_bridge (some 0) (λ p. true)

-- What the listing prints for the three rules.
abbrev printed : List ℕ
printed =
    codes "Chain INPUT (policy ACCEPT)"
    ++ 10 ∷ codes "num  target prot opt source destination"
    ++ 10 ∷ codes "1    DROP   tcp  --  anywhere anywhere /* Sentinel_Block_80_tcp */"
    ++ 10 ∷ codes "2    ACCEPT all  --  anywhere anywhere"
    ++ 10 ∷ codes "3    DROP   udp  --  anywhere anywhere /* Vigilant_Block_53_udp */"
    ++ 10 ∷ []

abbrev answer : FirewallAction → List (List String) → Outcome × List (List String)
answer (check_rule spec) s = (finished (if contains s spec then 0 else 1) [], s)
answer (insert_rule spec) s = (finished 0 [], spec ∷ s)
answer (delete_rule spec) s = (finished 0 [], remove_one spec s)
answer list_rules s = (finished 0 printed, s)
answer (delete_line n) s = (finished 0 [], without s n)

abbrev run : Command → List (List String) → Outcome × List (List String)
run c s = answer c.action s

there :
    (s : List (List String)) (spec : List String)
    → is_done (finished (if contains s spec then 0 else 1) []) ≡ true
    → contains s spec ≡ true
there s spec h = elim (Bool-cases (contains s spec)) [ inl y ↦ y | inr n ↦ cc (rw n at h) ]

abbrev behaves : IsIptables run bridge (λ s. s)
behaves = record {
  check = λ spec s. refl;
  check_done = λ spec s h. there s spec h;
  insert = λ spec s. refl;
  delete = λ spec s. refl;
}

abbrev three_rules : List (List String)
three_rules =
    rule "tcp" 80 "Sentinel_Block_80_tcp"
    ∷ ("-j" ∷ "ACCEPT" ∷ [])
    ∷ rule "udp" 53 "Vigilant_Block_53_udp"
    ∷ []

abbrev ours : List String → Bool
ours r = contains r "Sentinel_Block_80_tcp" || contains r "Vigilant_Block_53_udp"

abbrev own_rule : List String
own_rule = block_rule 443 (protocol_of "TCP")

abbrev is_there_443 : Bool
is_there_443 = is_there run bridge "Linux" (λ s. s) behaves own_rule three_rules

abbrev is_added_443 : Bool
is_added_443 = is_added run bridge "Linux" (λ s. s) behaves own_rule three_rules

block_port_correct_example :
    let (answered, after) = block_port run bridge "Linux" 443 "TCP" three_rules in
    let valid = is_valid "Linux" 443 "TCP" in
    (returned answered ≡ (valid && is_there_443))
    × (after ≡ (if valid && is_added_443 then own_rule ∷ three_rules else three_rules))
    × ((returned answered && not (contains after own_rule)) ≡ false)
block_port_correct_example =
    block_port_correct run bridge "Linux" (λ s. s) behaves 443 "TCP" three_rules

free : IsFree 443 (("-j" ∷ "ACCEPT" ∷ []) ∷ [])
unfolding contains
free = (refl, (refl, (refl, (refl, tt))))

unblock_port-block_port_example :
    (unblock_port run bridge "Linux" 443
      (block_port run bridge "Linux" 443 "TCP" (("-j" ∷ "ACCEPT" ∷ []) ∷ [])).1).1
    ≡ ("-j" ∷ "ACCEPT" ∷ []) ∷ []
unblock_port-block_port_example =
    unblock_port-block_port run bridge "Linux" (λ s. s) behaves (λ spec s h. refl) 443 "TCP"
      (("-j" ∷ "ACCEPT" ∷ []) ∷ []) free

abbrev lines : List (List ℕ)
lines =
    codes "1    DROP   tcp  --  anywhere anywhere /* Sentinel_Block_80_tcp */"
    ∷ codes "2    ACCEPT all  --  anywhere anywhere"
    ∷ codes "3    DROP   udp  --  anywhere anywhere /* Vigilant_Block_53_udp */"
    ∷ []

abbrev head : List (List ℕ)
head = codes "Chain INPUT (policy ACCEPT)" ∷ codes "num  target prot opt source destination" ∷ []

lines-printed : split_lines (strip printed) ≡ head ++ lines
unfolding split_lines strip skip_spaces codes
lines-printed = refl

foreign-head : All (λ line. is_ours line ≡ false) head
unfolding occurs_in codes
foreign-head = (refl, (refl, tt))

numbered-lines : Lists ours 1 lines three_rules
unfolding occurs_in codes first_word skip_spaces read_number contains show
numbered-lines = (refl, refl, (refl, refl, (refl, refl, tt)))

listing : IsListing run bridge "Linux" (λ s. s) ours three_rules printed
listing = record {
  head = head;
  lines = lines;
  printed = refl;
  split = lines-printed;
  foreign = foreign-head;
  numbered = numbered-lines;
}

deletes : Deletes run bridge "Linux" (λ s. s) ours
deletes n s h = (refl, refl)

cleanup_all_rules_correct_example :
    let (answered, after) = cleanup_all_rules run bridge "Linux" three_rules in
    (answered ≡ ok 2) × (after ≡ ("-j" ∷ "ACCEPT" ∷ []) ∷ [])
unfolding keep contains show
cleanup_all_rules_correct_example =
    cleanup_all_rules_correct run bridge "Linux" (λ s. s) ours deletes three_rules printed listing
      refl
