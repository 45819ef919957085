-- ===== src/Nexus/Sync/Laws.antt =====
-- What a synchronisation sends and how it ends.
use ibdm.Base.{
  ℕ, zero, suc, ◌+◌, ◌≤◌, String, ◌≡◌, refl, inl, inr, Bool, false, Bool-cases, Option, some,
  Option-cases, List, [], ◌∷◌, map, Err, wrap, is_canceled, Result, Result-cases, is_empty, ◌==◌,
  eq_iff, arith,
}
use ibdm.Value.{Fields, get_field, object, slice, of_list, text_or_empty}
use ibdm.Source.{Data, upsert, wants}
use ibdm.Effect.{check}
use ibdm.Effect.Laws.{
  Ends, Ended, Always, Ends-bind, Ends-attempt, Ends-wrapping, Ends-if, Ends-pure, Ends-fail,
  Ends-each,
}
use ibdm.Http.{Web, Request}
use ibdm.Http.Laws.{HasKeys, Ends-clock, Ends-emit, Ends-unless_done, Ends-each_live}
use ibdm.Nexus.{Config, Client, handle_err, err_nexus_source}
use ibdm.Nexus.Laws.{
  TokensDown, list_repositories-Ends, get_repository-Ends, list_components_page-Ends,
}
use ibdm.Nexus.Sync.{
  docker_image_type, assets_of, component_wrapper, emit_component, component_pages,
  sync_docker_images, resolve_repositories, sync_repository, start_sync_process,
}

-- An upsert of a Docker image with at least one asset.
abbrev pub IsImage : Data → Type 0
IsImage d =
    (d.operation ≡ upsert)
    × (d.kind ≡ docker_image_type)
    × HasKeys ("host" ∷ "name" ∷ "version" ∷ []) d
    × ((asset : Fields) × (assets : List Fields) × (get_field "assets" d.values
          ≡ some (slice (of_list (map object (asset ∷ assets))))))

-- What a synchronisation reports: an error of the source that is no cancellation.
abbrev pub IsReported : Err → Type 0
IsReported e = (f : Err) × (e ≡ wrap err_nexus_source f) × (is_canceled f ≡ false)

pub component_wrapper-assets :
    (component : Fields) (assets : List Fields) (host : String)
    → is_empty assets ≡ false
    → (asset : Fields) × (others : List Fields) × (get_field "assets"
          (component_wrapper component assets host)
        ≡ some (slice (of_list (map object (asset ∷ others)))))
unfolding component_wrapper get_field
component_wrapper-assets component [] host h = cc
component_wrapper-assets component (asset ∷ others) host h = (asset, others, refl)

handle_err-Ends :
    {W : Type 0} {I : W → Type 0} (e : Err) → Ends I IsReported Always (check (handle_err e))
unfolding handle_err
handle_err-Ends e = elim (Bool-cases (is_canceled e)) [
  | inl k ↦ rw (k, handle_err) (Ends-pure tt tt)
  | inr k ↦ rw (k, handle_err) (Ends-fail _ (e, refl, k))
]

module _ {W : Type 0} (web : Web W) (c : Client)
    (decode_components : String → Result (List Fields × Option String)) (rank : String → ℕ)
    (last : ℕ) (ranks : (token : String) → rank token ≤ last)
    (down : TokensDown web c decode_components rank) {I : W → Type 0}
    (requests : (req : Request) (w : W) → I w → I (web.send_request req w).1)
    (sends : (d : Data) (w : W) → I w → IsImage d → I (web.results d w)) where
  emit_component-Ends :
      {Fails : Err → Type 0} (host : String) (component : Fields)
      → Ends I Fails Always (emit_component web host component)
  unfolding emit_component component_wrapper get_field
  emit_component-Ends host component =
      Ends-if (text_or_empty (get_field "format" component) == "docker")
        (λ _.
          Ends-if (is_empty (assets_of component)) (λ _. Ends-pure tt tt)
            λ filled. Ends-bind (Ends-clock web) λ time _. Ends-emit web _ λ w i. sends _ w i (
              refl,
              refl,
              (refl, (refl, (refl, tt))),
              component_wrapper-assets component (assets_of component) host filled,
            ))
        (λ _. Ends-pure tt tt)

  component_pages-Ends :
      (host repository : String) (fuel : ℕ) (token : String)
      → rank token + 1 ≤ fuel
      → Ends I Always Always (component_pages web c decode_components host repository fuel token)
  unfolding component_pages
  component_pages-Ends host repository zero token k = absurd (omega (arith, k))
  component_pages-Ends host repository (suc fuel) token k = Ends-unless_done web (
      Ends-bind
        (Ends-wrapping _ (λ _ _. tt)
          (list_components_page-Ends web c requests decode_components rank down repository token))
        λ (components, next_token) h.
          Ends-bind (Ends-each _ (emit_component-Ends host) components) λ _ _.
            elim (Option-cases next_token) [
              | inl e ↦ rw e (Ends-pure tt tt)
              | inr (t, e) ↦ elim (Bool-cases (t == "")) [
                | inl m ↦ rw (e, m) (Ends-pure tt tt)
                | inr m ↦
                    rw (e, m)
                      (elim (h t e) [
                        | inl n ↦ absurd (let l = (eq_iff t "").1 n in cc)
                        | inr n ↦ component_pages-Ends host repository fuel t (omega (arith, k, n))
                      ])
              ]
            ])

  -- An error of the images of a repository is no error of the synchronisation.
  sync_repository-Ends :
      {Fails : Err → Type 0} (config : Config) (repo : Fields)
      → Ends I Fails Always (sync_repository web c decode_components (last + 1) config repo)
  unfolding sync_repository sync_docker_images
  sync_repository-Ends config repo =
      Ends-bind
        (Ends-attempt (
          component_pages-Ends config.url_host (text_or_empty (get_field "name" repo)) (last + 1) ""
            (omega (arith, ranks ""))))
        λ _ _. Ends-pure tt tt

  resolve_repositories-Ends :
      (config : Config) → Ends I Always Always (resolve_repositories web c decode_components config)
  unfolding resolve_repositories
  resolve_repositories-Ends config =
      Ends-if (config.specific_repository == "")
        (λ _. Ends-wrapping _ (λ _ _. tt) (list_repositories-Ends web c requests))
        (λ _.
          Ends-bind
            (Ends-wrapping _ (λ _ _. tt)
              (get_repository-Ends web c requests config.specific_repository))
            λ repo _. Ends-pure _ tt)

  start_sync_process-Ends :
      (locked : Bool) (config : Config) (types : List (String × Fields))
      → Ends I IsReported Always
          (start_sync_process web c decode_components locked config types (last + 1))
  unfolding start_sync_process
  start_sync_process-Ends locked config types =
      Ends-if locked (λ _. Ends-pure tt tt)
        λ _.
          Ends-if (wants docker_image_type types)
            (λ _. Ends-bind (Ends-attempt (resolve_repositories-Ends config)) λ r _.
              elim (Result-cases r) [
                | inl (repos, e) ↦
                    rw e
                      (Ends-each_live web _ (sync_repository-Ends config) repos (Ends-pure tt tt))
                | inr (f, e) ↦ rw e (handle_err-Ends f)
              ])
            (λ _. Ends-pure tt tt)

  -- When continuation tokens go down in a rank of at most `last`, a synchronisation with `last + 1`
  -- pages for each repository ends; it reports only errors that are no cancellation; and what every
  -- request keeps of the world, and every upsert of a Docker image with at least one asset, holds
  -- after it if it held before.
  pub nexus_sync-Ended :
      (locked : Bool) (config : Config) (types : List (String × Fields)) (w : W)
      → I w
      → Ended I IsReported Always
          (start_sync_process web c decode_components locked config types (last + 1) w)
  nexus_sync-Ended locked config types w i = (start_sync_process-Ends locked config types).run w i
