-- ===== src/Controller/Config/Settings.antt =====
-- What setGlobalSosreportReconcilerConfiguration and
-- setDevelopmentSosreportReconcilerConfiguration of controllers/sosreport_controller.go set.
use sosreport_operator.Prelude.{
  ◌||◌, String, ◌≡◌, ◌⊎◌, ◌↔◌, refl, Bool, true, false, Option, none, some, arith, ◌==◌, eq_iff,
  Option-cases, inl, inr, if◌then◌else◌, ℤ, pos,
}
use sosreport_operator.GoMap.{get}
use sosreport_operator.Strings.{atoi}
use sosreport_operator.Api.{Configuration}
use sosreport_operator.Env.{Result, ok, err}
use sosreport_operator.Controller.State.{
  SosreportReconciler, SosreportLogLevel, debug_level, info_level, default_image_name,
  default_sosreport_command,
}
use sosreport_operator.Controller.Config.{
  setting, debug_setting, concurrency_setting, concurrency_value, pull_policy_setting,
  is_pull_policy,
}

-- what a key of a configuration holds, where it was found and has it
abbrev pub value_of : Result Configuration → String → Option String
value_of (err x) k = none
value_of (ok cm) k = get cm.entries k

abbrev pub or_default : String → Option String → String
or_default default none = default
or_default default (some v) = v

-- the policies that Kubernetes knows, and the empty text that leaves it to the template
abbrev pub IsPolicy : String → Type 0
IsPolicy p = (p ≡ "") ⊎ ((p ≡ "Always") ⊎ ((p ≡ "Never") ⊎ (p ≡ "IfNotPresent")))

-- a text that stands for a number, or the default
abbrev pub number_or : ℤ → Option String → ℤ
number_or default none = default
number_or default (some v) = elim (atoi v) [ none ↦ default | some n ↦ n ]

-- a policy that Kubernetes knows, or the default
abbrev pub policy_or : String → Option String → String
policy_or default none = default
policy_or default (some p) =
    if p == "Always" || (p == "Never" || p == "IfNotPresent") then p else default

-- What the settings are, by the configurations that the two functions read: `dev` and `global` for
-- the first, `dev'` for the second.
pub record Configured (dev global dev' : Result Configuration) (r' : SosreportReconciler)
    : Type 0 where
  pub debug :
      (r'.dynamic_log_level ≡ some (record { min_level = debug_level }))
      ↔ (value_of dev "debug" ≡ some "true")
  pub concurrency : r'.sosreport_concurrency ≡ number_or (pos 1) (value_of global "concurrency")
  pub storage :
      (r'.pvc_storage_class ≡ or_default "" (value_of global "pvc-storage-class"))
      × (r'.pvc_capacity ≡ or_default "10Gi" (value_of global "pvc-capacity"))
  pub program :
      (r'.image_name ≡ or_default default_image_name (value_of dev' "sosreport-image"))
      × (r'.sosreport_command
          ≡ or_default default_sosreport_command (value_of dev' "sosreport-command"))
  pub policy : IsPolicy r'.image_pull_policy
  pub policy_given : r'.image_pull_policy ≡ policy_or "" (value_of dev' "image-pull-policy")

pub pull_policy_setting-IsPolicy : (cm : Result Configuration) → IsPolicy (pull_policy_setting cm)
unfolding pull_policy_setting is_pull_policy
pull_policy_setting-IsPolicy (err x) = inl refl
pull_policy_setting-IsPolicy (ok cm) = elim (Option-cases (get cm.entries "image-pull-policy")) [
  | inl a ↦ inl (ground (arith, a))
  | inr (v, a) ↦ ground (arith, a, eq_iff v "Always", eq_iff v "Never", eq_iff v "IfNotPresent")
]

pub concurrency_lem :
    (cm : Result Configuration)
    → concurrency_setting cm ≡ number_or (pos 1) (value_of cm "concurrency")
unfolding concurrency_setting concurrency_value
concurrency_lem (err x) = refl
concurrency_lem (ok cm) = elim (Option-cases (get cm.entries "concurrency")) [
  | inl a ↦ ground (arith, a)
  | inr (v, a) ↦ elim (Option-cases (atoi v)) [
    | inl b ↦ ground (arith, a, b)
    | inr (n, b) ↦ ground (arith, a, b)
  ]
]

abbrev pub level : Bool → Option SosreportLogLevel
level b = some (record { min_level = if b then debug_level else info_level })

level_iff : (b : Bool) → (level b ≡ some (record { min_level = debug_level })) ↔ (b ≡ true)
level_iff true = ground arith
level_iff false = ground arith

pub debug_level_iff :
    (cm : Result Configuration)
    → (level (debug_setting cm) ≡ some (record { min_level = debug_level }))
      ↔ (value_of cm "debug" ≡ some "true")
unfolding debug_setting
debug_level_iff (err x) = ground (arith, level_iff false)
debug_level_iff (ok cm) = elim (Option-cases (get cm.entries "debug")) [
  | inl a ↦ ground (arith, a, level_iff false)
  | inr (v, a) ↦ ground (arith, a, eq_iff v "true", level_iff (v == "true"))
]

pub setting_lem :
    (cm : Result Configuration) (k default : String)
    → setting cm k default ≡ or_default default (value_of cm k)
unfolding setting
setting_lem (err x) k default = refl
setting_lem (ok cm) k default = ground arith

pub pull_policy_lem :
    (cm : Result Configuration)
    → pull_policy_setting cm ≡ policy_or "" (value_of cm "image-pull-policy")
unfolding pull_policy_setting is_pull_policy
pull_policy_lem (err x) = refl
pull_policy_lem (ok cm) = elim (Option-cases (get cm.entries "image-pull-policy")) [
  | inl a ↦ ground (arith, a)
  | inr (p, a) ↦ ground (arith, a)
]
