-- ===== src/Controller/Config/Environment.antt =====
-- What getEnvConfigurationFromConfigMapAndSecret of controllers/sosreport_controller.go puts into
-- the environment of a job.
use sosreport_operator.Prelude.{
  String, ◌≡◌, refl, ap, Option, none, some, List, [], ◌∷◌, arith, ◌==◌, Option-cases, inl, inr,
  if◌then◌else◌,
}
use sosreport_operator.GoMap.{StringMap, made, get, assign, entries}
use sosreport_operator.GoMap.Laws.{get-assign}
use sosreport_operator.GoMap.Assoc.{find, put}
use sosreport_operator.Exec.{done}
use sosreport_operator.Api.{Configuration, NamespacedName}
use sosreport_operator.Env.{Env, Result, ok, err}
use sosreport_operator.Controller.State.{
  State, actions, upload_config_map_name, development_config_map_name, upload_secret_name,
}
use sosreport_operator.Controller.Config.{
  translate_entry, translate, and_then, key_map_upload, key_map_development, key_map_secret,
  same_text, trim_newlines, translate_data, translate_development, get_env_configuration,
  get_sosreport_config_map, get_sosreport_secret,
}

abbrev pub or_old : Option String → Option String → Option String
or_old none old = old
or_old (some v) old = some v

-- what one entry gives the environment variable `j`, where its key stands for the variable `named`
abbrev pub entry_value : (String → String) → String → String → Option String → Option String
entry_value f j v none = none
entry_value f j v (some named) = if named == j then some (f v) else none

-- the value that the last entry for the environment variable `j` gives it
abbrev pub written : StringMap → (String → String) → String → List (String × String) → Option String
written key_map f j [] = none
written key_map f j ((k, v) ∷ l) =
    or_old (written key_map f j l) (entry_value f j v (get key_map k))

entry_lem :
    (key_map : StringMap) (f : String → String) (k v : String) (l : List (String × String))
    → (l' : List (String × String)) × (translate_entry key_map f k v (made l) ≡ some (made l'))
      × ((j : String)
          → get (made l') j ≡ or_old (entry_value f j v (get key_map k)) (get (made l) j))
unfolding translate_entry assign
entry_lem key_map f k v l = elim (Option-cases (get key_map k)) [
  | inl e ↦ (l, rw (e, translate_entry), λ j. ground (arith, e))
  | inr (i, e) ↦ (
    put i (f v) l,
    rw (e, translate_entry),
    λ j. ground (arith, e, get-assign (made l) i (f v) {m' = made (put i (f v) l)} j refl),
  )
]

translate_lem :
    (key_map : StringMap) (f : String → String) (entries l : List (String × String))
    → (l' : List (String × String)) × (translate key_map f entries (made l) ≡ some (made l'))
      × ((j : String) → get (made l') j ≡ or_old (written key_map f j entries) (get (made l) j))
unfolding translate and_then
translate_lem key_map f [] l = (l, refl, λ j. refl)
translate_lem key_map f ((k, v) ∷ es) l =
    let (l₁, first, is₁) = entry_lem key_map f k v l in
    let (l₂, rest, is₂) = translate_lem key_map f es l₁ in
    (l₂, rw first rest, λ j. ground (arith, is₁ j, is₂ j))

upload_no_credentials :
    (f : String → String) (es : List (String × String))
    → (written key_map_upload f "PASSWORD" es ≡ none)
      × (written key_map_upload f "USERNAME" es ≡ none)
unfolding get find entries
upload_no_credentials f [] = (refl, refl)
upload_no_credentials f ((k, v) ∷ es) = ground (arith, upload_no_credentials f es)

development_no_credentials :
    (f : String → String) (es : List (String × String))
    → (written key_map_development f "PASSWORD" es ≡ none)
      × (written key_map_development f "USERNAME" es ≡ none)
unfolding get find entries
development_no_credentials f [] = (refl, refl)
development_no_credentials f ((k, v) ∷ es) = ground (arith, development_no_credentials f es)

empty : (j : String) → get {V = String} (made []) j ≡ none
unfolding get find entries
empty j = refl

module _ (e : Env) where
  -- the entries that the loop over a configuration visits, and the world after it; none where the
  -- configuration could not be read
  abbrev pub visited : Result Configuration × e.World → List (String × String) × e.World
  visited (err x, w) = ([], w)
  visited (ok cm, w) = e.range_order (String × String) (entries cm.entries) w

  -- the three loops, one after the other
  abbrev pub upload_entries : NamespacedName → e.World → List (String × String) × e.World
  upload_entries req w =
      visited
        (e.get_config_map (record { namespace = req.namespace; name = upload_config_map_name }) w)

  abbrev pub development_entries : NamespacedName → e.World → List (String × String) × e.World
  development_entries req w = visited (
      e.get_config_map (record { namespace = req.namespace; name = development_config_map_name })
        (upload_entries req w).1)

  abbrev pub secret_entries : NamespacedName → e.World → List (String × String) × e.World
  secret_entries req w = visited (
      e.get_secret (record { namespace = req.namespace; name = upload_secret_name })
        (development_entries req w).1)

  translate_data_lem :
      (key_map : StringMap) (f : String → String) (found : Result Configuration × e.World)
      (l : List (String × String)) (st : State e)
      → (l' : List (String × String)) × (translate_data e key_map f found.0
            (made l)
            (record st { w = found.1 })
          ≡ (done (made l'), record st { w = (visited found).1 }))
        × ((j : String)
            → get (made l') j ≡ or_old (written key_map f j (visited found).0) (get (made l) j))
  unfolding translate_data actions
  translate_data_lem key_map f (err x, w) l st = (l, refl, λ j. refl)
  translate_data_lem key_map f (ok cm, w) l st =
      let es = (visited (ok cm, w)).0 in
      let (l', ran, holds') = translate_lem key_map f es l in (l', rw ran refl, holds')

  -- getEnvConfigurationFromConfigMapAndSecret always returns, whichever of the maps are missing. Each
  -- variable of the environment has the value of the Secret's last visited entry that stands for it,
  -- else that of the development ConfigMap, else that of the upload ConfigMap, and no other variable
  -- is set. The Secret's values lose their newlines at both ends.
  pub get_env_configuration_lem :
      (req : NamespacedName) (st : State e)
      → (l : List (String × String)) × (get_env_configuration e req st
          ≡ (done (made l), record st { w = (secret_entries req st.w).1 }))
        × ((j : String)
            → get (made l) j
              ≡ or_old (written key_map_secret trim_newlines j (secret_entries req st.w).0) (
                  or_old
                    (written key_map_development same_text j (development_entries req st.w).0)
                    (written key_map_upload same_text j (upload_entries req st.w).0)))
  unfolding get_env_configuration get_sosreport_config_map get_sosreport_secret
      translate_development actions
  get_env_configuration_lem req st =
      let cmg =
        e.get_config_map (record { namespace = req.namespace; name = upload_config_map_name })
          st.w in
      let (l₁, ran₁, is₁) = translate_data_lem key_map_upload same_text cmg [] st in
      let cmu =
        e.get_config_map (record { namespace = req.namespace; name = development_config_map_name })
          (upload_entries req st.w).1 in
      let (l₂, ran₂, is₂) = translate_data_lem key_map_development same_text cmu l₁ st in
      let secret =
        e.get_secret (record { namespace = req.namespace; name = upload_secret_name })
          (development_entries req st.w).1 in
      let (l₃, ran₃, is₃) = translate_data_lem key_map_secret trim_newlines secret l₂ st in
      (l₃, rw (ran₁, ran₂, ran₃) refl, λ j. ground (arith, is₁ j, is₂ j, is₃ j, empty j))

  -- Whatever the ConfigMaps hold, the user name and the password of the environment come from the
  -- Secret alone.
  pub credentials_from_secret :
      (req : NamespacedName) (st : State e)
      → (l : List (String × String)) × ((get_env_configuration e req st).0 ≡ done (made l))
        × (get (made l) "USERNAME"
            ≡ written key_map_secret trim_newlines "USERNAME" (secret_entries req st.w).0)
        × (get (made l) "PASSWORD"
            ≡ written key_map_secret trim_newlines "PASSWORD" (secret_entries req st.w).0)
  credentials_from_secret req st =
      let (l, ran, is) = get_env_configuration_lem req st in
      let up = upload_no_credentials same_text (upload_entries req st.w).0 in
      let dev = development_no_credentials same_text (development_entries req st.w).0 in
      (
        l,
        ap (λ x. x.0) ran,
        ground (arith, is "USERNAME", up, dev),
        ground (arith, is "PASSWORD", up, dev),
      )
