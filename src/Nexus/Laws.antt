-- ===== src/Nexus/Laws.antt =====
-- What the client keeps of the world and gives back, and the settings that are required.
use ibdm.Base.{
  ℕ, ◌<◌, String, ◌≡◌, ◌≢◌, ◌↔◌, ◌⊎◌, Option, none, some, List, [], Result, ok, eqb, eq_iff, arith,
}
use ibdm.Value.{Fields}
use ibdm.Effect.Laws.{
  Ends, Always, Ends-bind, Ends-wrapping, Ends-if, Ends-lift, Ends-check, Ends-fail,
}
use ibdm.Http.{Web, Request, Response}
use ibdm.Http.Laws.{Ends-send}
use ibdm.Nexus.{
  Config, Client, missing_variables, validate_config, request_for, do_request, decoded,
  list_repositories, get_repository, get_component, component_params, list_components_page,
}

-- The settings are accepted exactly when none of the four is empty.
pub nexus_validate_config_iff :
    (cfg : Config)
    → (validate_config cfg ≡ none) ↔ (
        (cfg.url_schema ≢ "")
        × (cfg.url_host ≢ "")
        × (cfg.token_name ≢ "")
        × (cfg.token_passcode ≢ ""))
unfolding validate_config missing_variables
nexus_validate_config_iff cfg = ground (
  arith,
  eq_iff cfg.url_schema "",
  eq_iff cfg.url_host "",
  eq_iff cfg.token_name "",
  eq_iff cfg.token_passcode "",
)

-- The token of the next page has a lower rank than the one of this page.
abbrev pub TokensDown :
    {W : Type 0}
    → Web W
    → Client
    → (String → Result (List Fields × Option String))
    → (String → ℕ)
    → Type 0
TokensDown {W} web c decode_components rank =
    (repository token next_token : String) (w : W) (resp : Response) (components : List Fields)
    → (web.send_request
        (request_for web c "/v1/components" (component_params web c repository token)) w).0
      ≡ ok resp
    → decode_components resp.body ≡ ok (components, some next_token)
    → (next_token ≡ "") ⊎ (rank next_token < rank token)

module _ {W : Type 0} (web : Web W) (c : Client) {I : W → Type 0}
    (requests : (req : Request) (w : W) → I w → I (web.send_request req w).1) where
  -- What an answer to the request decodes to.
  decoded-Ends :
      {A : Type 0} {Gives : A → Type 0} (sentinel : String) (decode : String → Result A)
      (path : String) (params : List (String × String))
      → ((w : W) (resp : Response) (a : A)
          → (web.send_request (request_for web c path params) w).0 ≡ ok resp
          → decode resp.body ≡ ok a
          → Gives a)
      → Ends I Always Gives (decoded web c sentinel decode path params)
  unfolding decoded do_request
  decoded-Ends {Gives = Gives} sentinel decode path params answers =
      Ends-bind {Gives = λ (resp : Response). (a : _) → decode resp.body ≡ ok a → Gives a}
        (Ends-bind {Gives = Always} (Ends-check _ (λ _ _. tt))
          λ _ _. Ends-send web _ (requests _) (λ w resp e a d. answers w resp a e d) (λ _. tt))
        λ resp h.
          Ends-if (eqb resp.status 200)
            (λ _. Ends-wrapping sentinel (λ _ _. tt) (Ends-lift (decode resp.body) h (λ _ _. tt)))
            (λ _. Ends-fail _ tt)

  pub list_repositories-Ends : Ends I Always Always (list_repositories web c)
  unfolding list_repositories
  list_repositories-Ends = decoded-Ends _ web.decode_objects "/v1/repositories" [] (λ _ _ _ _ _. tt)

  pub get_repository-Ends : (name : String) → Ends I Always Always (get_repository web c name)
  unfolding get_repository
  get_repository-Ends name = decoded-Ends _ web.decode_object _ _ (λ _ _ _ _ _. tt)

  pub get_component-Ends : (id : String) → Ends I Always Always (get_component web c id)
  unfolding get_component
  get_component-Ends id = decoded-Ends _ web.decode_object _ _ (λ _ _ _ _ _. tt)

  module _ (decode_components : String → Result (List Fields × Option String))
      (rank : String → ℕ) where
    pub list_components_page-Ends :
        TokensDown web c decode_components rank
        → (repository token : String)
        → Ends I Always
            (λ (page : List Fields × Option String).
              (next_token : String)
              → page.1 ≡ some next_token
              → (next_token ≡ "") ⊎ (rank next_token < rank token))
            (list_components_page web c decode_components repository token)
    unfolding list_components_page
    list_components_page-Ends down repository token =
        decoded-Ends _ decode_components "/v1/components" (component_params web c repository token)
          λ w resp page e d next_token k.
            down repository token next_token w resp page.0 e (rw (← k) d)
