-- ===== src/Config/Life.antt =====
-- The life of the configuration: the API server's steps on the object that holds it, the
-- reconciler's runs and the restarts of the operator, as a step relation.
use knl.Common.{
  ◌+◌, ◌≤◌, ◌≡◌, refl, ap, sym, inl, inr, arith, ℤ, pos, negsuc, eqb→eq, Bool-cases, Bool, true,
  false, if◌then◌else◌, Option, none, some, Result, ok, err, panic,
}
use mathlib.Core.Option.{some_inj}
use knl.Api.{KnlConfigSpec}
use knl.Api.Defaults.{def_knl_config}
use knl.Config.{
  SharedConfig, KnlConfig, new_config, set, reconcile, apply_config, eqz, target_knlconfig_name,
}
use knl.Cluster.Interface.{ApiError, not_found, api_failed}

pub record World : Type 0 where
  pub shared : SharedConfig
  pub object : Option KnlConfig

abbrev pub start : World
start = record { shared = new_config; object = none }

-- an object as the API server makes it, and after its specification is changed
abbrev pub made : KnlConfigSpec → KnlConfig
made spec = record { generation = pos 1; spec = spec; observed_generation = none }

abbrev next_generation : ℤ → ℤ
next_generation (pos n) = pos (n + 1)
next_generation (negsuc n) = negsuc n

abbrev pub changed : KnlConfigSpec → KnlConfig → KnlConfig
changed spec k = record k { generation = next_generation k.generation; spec = spec }

abbrev or_keep : Option KnlConfig → Option KnlConfig → Option KnlConfig
or_keep none o = o
or_keep (some k) o = some k

-- A run for the operator's configuration that reads the result given; `written` says whether the status
-- update arrives.
unfoldable pub run : Result ApiError KnlConfig → Bool → World → World
unfolding reconcile
run read written w =
    let (next, update, _) =
      reconcile (λ _ _. read) "knl-system" "knl-system" target_knlconfig_name w.shared in
    record { shared = next; object = if written then or_keep update w.object else w.object }

-- a read shows the object that is there, or fails
abbrev pub Reads : Option KnlConfig → Result ApiError KnlConfig → Type 0
Reads o read = (k : KnlConfig) → read ≡ ok k → o ≡ some k

-- All that happens, but that the object is deleted.
pub data Step : World → World → Type 0 where
  create :
      (cfg : SharedConfig) (spec : KnlConfigSpec)
      → Step
          (record { shared = cfg; object = none })
          (record { shared = cfg; object = some (made spec) })
  change :
      (cfg : SharedConfig) (k : KnlConfig) (spec : KnlConfigSpec)
      → Step
          (record { shared = cfg; object = some k })
          (record { shared = cfg; object = some (changed spec k) })
  reconciled :
      (w : World) (read : Result ApiError KnlConfig) (written : Bool)
      → Reads w.object read
      → Step w (run read written w)
  restart : (w : World) → Step w (record w { shared = new_config })

pub data Reach : World → Type 0 where
  here : Reach start
  next : {w u : World} → Reach w → Step w u → Reach u

-- the shared configuration is not from after the object, and is the object's when the generations agree
abbrev Agrees : ℤ → ℤ → KnlConfigSpec → KnlConfigSpec → Type 0
Agrees (pos m) (pos n) c s = (m ≤ n) × (m ≡ n → c ≡ s)
Agrees (negsuc m) (pos n) c s = Unit
Agrees g (negsuc n) c s = ⊥

abbrev Unset : ℤ → Type 0
Unset (pos m) = ⊥
Unset (negsuc m) = Unit

abbrev Agreeing : SharedConfig → Option KnlConfig → Type 0
Agreeing cfg none = Unset cfg.generation
Agreeing cfg (some k) = Agrees cfg.generation k.generation cfg.config k.spec

unfoldable pub Follows : World → Type 0
Follows w = Agreeing w.shared w.object

Agrees-next :
    (g h : ℤ) (c s s' : KnlConfigSpec) → Agrees g h c s → Agrees g (next_generation h) c s'
Agrees-next (pos m) (pos n) c s s' (le, e) = (omega arith, λ same. absurd (omega arith))
Agrees-next (negsuc m) (pos n) c s s' h = tt
Agrees-next g (negsuc n) c s s' h = h

restart-Agrees :
    (g h : ℤ) (c s : KnlConfigSpec) → Agrees g h c s → Agrees (negsuc 0) h def_knl_config s
restart-Agrees g (pos n) c s h = tt
restart-Agrees (pos m) (negsuc n) c s h = absurd h
restart-Agrees (negsuc m) (negsuc n) c s h = absurd h

Agrees-Unset : (g : ℤ) (c s : KnlConfigSpec) → Unset g → Agrees g (pos 1) c s
Agrees-Unset (pos m) c s h = absurd h
Agrees-Unset (negsuc m) c s h = tt

eqz→eq : (a b : ℤ) → eqz a b ≡ true → a ≡ b
eqz→eq (pos a) (pos b) h = ap pos (eqb→eq a b h)
eqz→eq (negsuc a) (negsuc b) h = ap negsuc (eqb→eq a b h)
eqz→eq (pos a) (negsuc b) h = cc
eqz→eq (negsuc a) (pos b) h = cc

Agrees-equal : (g h : ℤ) (c s : KnlConfigSpec) → Agrees g h c s → g ≡ h → c ≡ s
Agrees-equal (pos m) (pos n) c s (le, same) e = same (ground (arith, e))
Agrees-equal (negsuc m) (pos n) c s a e = cc
Agrees-equal (pos m) (negsuc n) c s a e = absurd a
Agrees-equal (negsuc m) (negsuc n) c s a e = absurd a

Agrees-self : (g h : ℤ) (c s : KnlConfigSpec) → Agrees g h c s → Agrees h h s s
Agrees-self g (pos n) c s a = (omega arith, λ e. refl)
Agrees-self (pos m) (negsuc n) c s a = absurd a
Agrees-self (negsuc m) (negsuc n) c s a = absurd a

shared_eq :
    {cfg : SharedConfig} {c : KnlConfigSpec} {g : ℤ}
    → cfg.config ≡ c
    → cfg.generation ≡ g
    → cfg ≡ record { config = c; generation = g }
shared_eq p q = λ i. record { config = p i; generation = q i }

-- What is read of the object specification brings the configuration up to date
apply_up_to_date :
    (cfg : SharedConfig) (k : KnlConfig)
    → Agrees cfg.generation k.generation cfg.config k.spec
    → (apply_config k cfg).0 ≡ record { config = k.spec; generation = k.generation }
unfolding set
apply_up_to_date cfg k a = elim (Bool-cases (eqz cfg.generation k.generation)) [
  | inr f ↦ ground (arith, f)
  | inl t ↦
      let same = eqz→eq cfg.generation k.generation t in
      let c = Agrees-equal cfg.generation k.generation cfg.config k.spec a same in
      rw (t) (shared_eq c same)
]

-- the object of the status update has the specification and the generation of the object read
abbrev IsSame : KnlConfig → KnlConfig → Type 0
IsSame k o = (o.spec ≡ k.spec) × (o.generation ≡ k.generation)

kept-IsSame :
    (update : Option KnlConfig) (k : KnlConfig) (written : Bool)
    → ((o : KnlConfig) → update ≡ some o → IsSame k o)
    → (o : KnlConfig) × ((if written then or_keep update (some k) else some k) ≡ some o)
      × IsSame k o
kept-IsSame none k true same = (k, refl, (refl, refl))
kept-IsSame (some o) k true same = (o, refl, same o refl)
kept-IsSame update k false same = (k, refl, (refl, refl))

apply_update : (k o : KnlConfig) (cfg : SharedConfig) → (apply_config k cfg).1 ≡ some o → IsSame k o
unfolding set
apply_update k o cfg h = elim (Bool-cases (eqz cfg.generation k.generation)) [
  | inr f ↦
      let e = some_inj.0 (rw f at h) in (ap (λ x. x.spec) (sym e), ap (λ x. x.generation) (sym e))
  | inl t ↦ ground (arith, h, t)
]

-- A run that reads the object leaves the object's configuration.
run_read :
    (k : KnlConfig) (written : Bool) (w : World)
    → w.object ≡ some k
    → Follows w
    → ((run (ok k) written w).shared ≡ record { config = k.spec; generation = k.generation })
      × ((o : KnlConfig) × ((run (ok k) written w).object ≡ some o) × IsSame k o)
unfolding run reconcile Follows
run_read k written w there f = (
  apply_up_to_date w.shared k (rw there at f),
  rw there (kept-IsSame (apply_config k w.shared).1 k written (λ o e. apply_update k o w.shared e)),
)

unset_new : Follows (record { shared = new_config; object = none })
unfolding Follows
unset_new = tt

run-Follows :
    (read : Result ApiError KnlConfig) (written : Bool) (w : World)
    → Reads w.object read
    → Follows w
    → Follows (run read written w)
unfolding run reconcile Follows
run-Follows (ok k) written w reads f =
    let there = reads k refl in
    let (cfg, (o, kept, (spec, generation))) = run_read k written w there f in
    rw (cfg, kept)
      (rw (spec, generation)
        (Agrees-self w.shared.generation k.generation w.shared.config k.spec (rw there at f)))
run-Follows (err not_found) true w reads f = f
run-Follows (err not_found) false w reads f = f
run-Follows (err api_failed) true w reads f = f
run-Follows (err api_failed) false w reads f = f
run-Follows panic true w reads f = f
run-Follows panic false w reads f = f

restart-Follows :
    (o : Option KnlConfig) (cfg : SharedConfig) → Agreeing cfg o → Agreeing new_config o
restart-Follows none cfg f = tt
restart-Follows (some k) cfg f = restart-Agrees cfg.generation k.generation cfg.config k.spec f

Step-Follows : {w u : World} → Step w u → Follows w → Follows u
unfolding Follows
Step-Follows (create cfg spec) f = Agrees-Unset cfg.generation cfg.config spec f
Step-Follows (change cfg k spec) f =
    Agrees-next cfg.generation k.generation cfg.config k.spec spec f
Step-Follows (reconciled w read written reads) f = run-Follows read written w reads f
Step-Follows (restart w) f = restart-Follows w.object w.shared f

pub Reach-Follows : {w : World} → Reach w → Follows w
unfolding Follows
Reach-Follows here = tt
Reach-Follows (next r s) = Step-Follows s (Reach-Follows r)

-- As long as the object is not deleted, a run of the reconciler that reads the object leaves the
-- shared configuration with the object's specification and generation, in whatever order the
-- object's changes, the runs, failed ones included, and the restarts of the operator came before.
pub reconcile_catches_up :
    (w : World) (k : KnlConfig) (written : Bool)
    → Reach w
    → w.object ≡ some k
    → (run (ok k) written w).shared ≡ record { config = k.spec; generation = k.generation }
reconcile_catches_up w k written r there = (run_read k written w there (Reach-Follows r)).0
