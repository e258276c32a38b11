-- ===== src/Plugins/Registry.antt =====
-- Which plugin a name finds, and which plugins run.
use mathlib.Core.Path.{ap₂}
use port_sentinel.Base.Dict.{get, find_by, get-put}
use mathlib.Core.Option
use port_sentinel.Plugins.{
  Plugin, PluginRegistry, register_plugin, register_module, discover, start_one, start_all,
  stop_one, stop_all, get_plugin,
}
use port_sentinel.Base.{
  text_keys, if◌then◌else◌, String, Bool, List, [], ◌∷◌, ◌++◌, ◌≡◌, Option, none, Bool-cases, some,
  ◌==◌, length, ◌||◌, inl, sym, refl, inr, Option-cases, ◌&&◌, ◌∙◌, ap, not, arith, suc, ◌+◌,
  length-append,
}

-- The plugins of all modules.
abbrev pub instances : List (List Plugin) → List Plugin
instances [] = []
instances (found ∷ rest) = found ++ instances rest

-- The first of two that is there.
abbrev pub first_of : Option Plugin → Option Plugin → Option Plugin
first_of none b = b
first_of (some a) b = some a

first_of_assoc : (a b c : Option Plugin) → first_of (first_of a b) c ≡ first_of a (first_of b c)
first_of_assoc none b c = refl
first_of_assoc (some a) b c = refl

first_of-none : (a : Option Plugin) → first_of a none ≡ a
first_of-none none = refl
first_of-none (some a) = refl

get-register_plugin :
    (plugins : PluginRegistry) (plugin : Plugin) (name : String)
    → get (register_plugin plugins plugin) name
      ≡ first_of (get plugins name) (if plugin.name == name then some plugin else none)
unfolding register_plugin
get-register_plugin plugins plugin name =
    let found = get-put plugins plugin.name plugin name in
    elim (Option-cases (get plugins plugin.name)) [
      | inl absent ↦ elim (Bool-cases (plugin.name == name)) [
        | inl e ↦
            let same : plugin.name ≡ name = (text_keys.same_iff plugin.name name).0 e in
            let gone : get plugins name ≡ none = ap (get plugins) (sym same) ∙ absent in
            rw (absent, e, gone) (found ∙ rw e refl)
        | inr e ↦ rw (absent, e) (found ∙ rw e (sym (first_of-none (get plugins name))))
      ]
      | inr (old, present) ↦ elim (Bool-cases (plugin.name == name)) [
        | inl e ↦
            let same : plugin.name ≡ name = (text_keys.same_iff plugin.name name).0 e in
            let there : get plugins name ≡ some old = ap (get plugins) (sym same) ∙ present in
            rw (present, there) refl
        | inr e ↦ rw (present, e) (sym (first_of-none (get plugins name)))
      ]
    ]

find_by-cons :
    (p : Plugin) (ps : List Plugin) (name : String)
    → find_by (λ q. q.name) name (p ∷ ps)
      ≡ first_of (if p.name == name then some p else none) (find_by (λ q. q.name) name ps)
unfolding find_by
find_by-cons p ps name = elim (Bool-cases (p.name == name)) [
  | inl e ↦ rw e refl
  | inr e ↦ rw e refl
]

find_by-append :
    (ps qs : List Plugin) (name : String)
    → find_by (λ q. q.name) name (ps ++ qs)
      ≡ first_of (find_by (λ q. q.name) name ps) (find_by (λ q. q.name) name qs)
unfolding find_by
find_by-append [] qs name = refl
find_by-append (p ∷ ps) qs name = elim (Bool-cases (p.name == name)) [
  | inl e ↦ rw e refl
  | inr e ↦ rw e (find_by-append ps qs name)
]

register_module_lem :
    (plugins : PluginRegistry) (ps : List Plugin) (name : String)
    → (get (register_module plugins ps).0 name
        ≡ first_of (get plugins name) (find_by (λ q. q.name) name ps))
      × ((register_module plugins ps).1 ≡ length ps)
unfolding register_module
register_module_lem plugins [] name =
    (unfold find_by in sym (first_of-none (get plugins name)), refl)
register_module_lem plugins (p ∷ ps) name =
    let (found, n) = register_module_lem (register_plugin plugins p) ps name in
    (
      found
          ∙ ap (λ o. first_of o (find_by (λ q. q.name) name ps))
              (get-register_plugin plugins p name)
          ∙ first_of_assoc (get plugins name) (if p.name == name then some p else none)
              (find_by (λ q. q.name) name ps)
          ∙ ap (first_of (get plugins name)) (sym (find_by-cons p ps name)),
      ap suc n,
    )

-- After discovery, a name finds the plugin that had it before, or else the first discovered one
-- that has it; the count is of all the plugins discovered, those skipped included.
pub discover_correct :
    (plugins : PluginRegistry) (modules : List (List Plugin)) (name : String)
    → (get_plugin (discover plugins modules).0 name
        ≡ first_of (get_plugin plugins name) (find_by (λ q. q.name) name (instances modules)))
      × ((discover plugins modules).1 ≡ length (instances modules))
unfolding discover get_plugin
discover_correct plugins [] name = (unfold find_by in sym (first_of-none (get plugins name)), refl)
discover_correct plugins (ps ∷ rest) name =
    let (here, n) = register_module_lem plugins ps name in
    let (later, m) = discover_correct (register_module plugins ps).0 rest name in
    (
      later
          ∙ ap (λ o. first_of o (find_by (λ q. q.name) name (instances rest))) here
          ∙ first_of_assoc (get plugins name) (find_by (λ q. q.name) name ps)
              (find_by (λ q. q.name) name (instances rest))
          ∙ ap (first_of (get plugins name)) (sym (find_by-append ps (instances rest) name)),
      ap₂ (◌+◌) n m ∙ sym (length-append ps (instances rest)),
    )

get-start_all :
    (returns : String → Bool) (plugins : PluginRegistry) (name : String)
    → get (start_all returns plugins) name ≡ Option.map (start_one returns) (get plugins name)
unfolding get start_all
get-start_all returns [] name = refl
get-start_all returns ((n, p) ∷ rest) name = elim (Bool-cases (n == name)) [
  | inl e ↦ rw e refl
  | inr e ↦ rw e (get-start_all returns rest name)
]

get-stop_all :
    (returns : String → Bool) (plugins : PluginRegistry) (name : String)
    → get (stop_all returns plugins) name ≡ Option.map (stop_one returns) (get plugins name)
unfolding get stop_all
get-stop_all returns [] name = refl
get-stop_all returns ((n, p) ∷ rest) name = elim (Bool-cases (n == name)) [
  | inl e ↦ rw e refl
  | inr e ↦ rw e (get-stop_all returns rest name)
]

-- A plugin runs after all were started and then stopped exactly if it ran before or was enabled
-- and started, and its stop failed; failures of others do not matter.
pub stop_all-start_all :
    (starts stops : String → Bool) (plugins : PluginRegistry) (name : String) (plugin : Plugin)
    → get_plugin plugins name ≡ some plugin
    → Option.map (λ p. p.started) (get_plugin (stop_all stops (start_all starts plugins)) name)
      ≡ some ((plugin.started || (plugin.enabled && starts plugin.name)) && not (stops plugin.name))
unfolding get_plugin start_one stop_one
stop_all-start_all starts stops plugins name plugin h =
    rw (get-stop_all stops (start_all starts plugins) name, get-start_all starts plugins name, h)
      (ap some (ground arith))
