-- ===== src/Action/Prepare/Passed.antt =====
-- What has passed where `prepare` of an action in src/action/mod.rs succeeds.
use anml_client_rust.Common.{
  Bool, true, false, Option, none, some, List, [], ◌∷◌, ◌++◌, ◌≡◌, ◌≢◌, ◌⊎◌, inl, inr, refl, subst,
  Text, codes, decimal, arith, All, find, any, is_some, IsFirst, find-IsFirst, Option-cases,
}
use anml_client_rust.Document.{AnmlDocument, AnmlAction, AnmlParam, AnmlInteract}
use anml_client_rust.Error.{ok, Result-cases}
use anml_client_rust.Config.{ConfirmDecision, confirm, cancel}
use anml_client_rust.Action.Address.{IpAddr, is_private_ip}
use anml_client_rust.Action.Params.{ParamValue, has_name, collect_params}
use anml_client_rust.Action.Validation.{validate_param}
use anml_client_rust.Action.Validation.Constraints.{Meets, validate_param_iff}
use anml_client_rust.Action.Prepare.{
  Platform, ActionContext, action_id_is, find_action, list_or, port_or, resolve_endpoint,
  check_host, check_ssrf, value_of, validate_params, check_confirmed, Prepared, prepare,
}

-- The principal confirms, where the action asks for it.
abbrev pub Confirmed : ActionContext → AnmlAction → Text → Type 0
Confirmed ctx action endpoint =
    (action.confirm ≢ some true)
    ⊎ ((handler : Text → Text → Text → Option Text → ConfirmDecision) × (ctx.confirm_handler
          ≡ some handler)
        × (handler action.id action.method endpoint action.description ≡ confirm))

pub check_confirmed-Confirmed :
    (ctx : ActionContext) (action_id : Text) (action : AnmlAction) (endpoint : Text)
    → check_confirmed ctx action_id action endpoint ≡ ok tt
    → Confirmed ctx action endpoint
unfolding check_confirmed
check_confirmed-Confirmed ctx action_id action endpoint h = by_confirm action.confirm refl
  where
    by_decision :
        (handler : Text → Text → Text → Option Text → ConfirmDecision)
        → ctx.confirm_handler ≡ some handler
        → action.confirm ≡ some true
        → (d : ConfirmDecision) → handler action.id action.method endpoint action.description ≡ d
        → Confirmed ctx action endpoint
    by_decision handler e c confirm k = inr (handler, e, k)
    by_decision handler e c cancel k = ground (arith, (rw (check_confirmed, c, e, k) at h))

    by_confirm : (c : Option Bool) → action.confirm ≡ c → Confirmed ctx action endpoint
    by_confirm none c = inl (λ e. ground (arith, c, e))
    by_confirm (some false) c = inl (λ e. ground (arith, c, e))
    by_confirm (some true) c = elim (Option-cases ctx.confirm_handler) [
      | inl missing ↦ ground (arith, (rw (check_confirmed, c, missing) at h))
      | inr (handler, e) ↦
          by_decision handler e c (handler action.id action.method endpoint action.description) refl
    ]

module _ (platform : Platform) where
  abbrev pub IsPublic : IpAddr → Type 0
  IsPublic ip = is_private_ip ip ≡ false

  -- The host is a public address, or a name that does not resolve or resolves to public addresses.
  abbrev pub HasPublicHost : Text → Type 0
  HasPublicHost endpoint =
      (host : Text) × (platform.host_str endpoint ≡ some host)
      × (((ip : IpAddr) × (platform.parse_ip host ≡ some ip) × IsPublic ip)
          ⊎ ((platform.parse_ip host ≡ none)
              × ((addrs : Option (List IpAddr)) × (platform.lookup_host (
                      host
                      ++ codes ":"
                      ++ decimal (port_or (platform.port_or_known_default endpoint)))
                    ≡ addrs)
                  × ((addrs ≡ none)
                      ⊎ ((ips : List IpAddr) × (addrs ≡ some ips) × All IsPublic ips)))))

  any_private : (ips : List IpAddr) → any is_private_ip ips ≡ false → All IsPublic ips
  any_private [] h = tt
  any_private (ip ∷ ips) h = ground (arith, any_private ips)

  check_ssrf-HasPublicHost :
      (endpoint : Text) → check_ssrf platform endpoint ≡ ok tt → HasPublicHost endpoint
  unfolding check_ssrf check_host
  check_ssrf-HasPublicHost endpoint h = elim (Option-cases (platform.host_str endpoint)) [
    | inl missing ↦ ground arith
    | inr (host, e) ↦ elim (Option-cases (platform.parse_ip host)) [
      | inr (ip, k) ↦ (host, e, inl (ip, k, ground arith))
      | inl name ↦
          elim (Option-cases (
            platform.lookup_host
              (host ++ codes ":" ++ decimal (port_or (platform.port_or_known_default endpoint))))) [
                | inl unknown ↦ (host, e, inr (name, (none, unknown, inl refl)))
                | inr (ips, found) ↦ (
                  host,
                  e,
                  inr (name, (some ips, found, inr (ips, refl, any_private ips (ground arith)))),
                )
              ]
    ]
  ]

  abbrev pub IsValid : List ParamValue → AnmlParam → Type 0
  IsValid values def =
      Meets platform.floats (λ s. is_some (platform.net.parse_url s)) def
        (value_of (find (has_name def.name) values))

  pub validate_params-IsValid :
      (defs : List AnmlParam) (values : List ParamValue)
      → validate_params platform defs values ≡ ok tt
      → All (IsValid values) defs
  unfolding validate_params
  validate_params-IsValid [] values h = tt
  validate_params-IsValid (def ∷ defs) values h =
      elim (Result-cases (
        validate_param platform.floats (λ s. is_some (platform.net.parse_url s)) def
          (value_of (find (has_name def.name) values)))) [
            | inr (e, failed) ↦ ground arith
            | inl (tt, first) ↦ (
              (validate_param_iff platform.floats _ def _).0 first,
              validate_params-IsValid defs values (ground arith),
            )
          ]

  -- What `prepare` has found: the first action with the id, its endpoint, and values that pass.
  abbrev pub Cleared : ActionContext → AnmlDocument → Text → List (Text × Text) → Prepared → Type 0
  Cleared ctx doc action_id user_params p =
      ((interact : AnmlInteract) × (doc.interact ≡ some interact)
        × IsFirst (action_id_is action_id) p.action interact.actions)
      × (resolve_endpoint platform p.action.endpoint ctx.document_origin ctx.xml_base
          ≡ ok p.endpoint)
      × HasPublicHost p.endpoint
      × (p.values ≡ collect_params (list_or p.action.params) user_params)
      × All (IsValid p.values) (list_or p.action.params)

  find_action-IsFirst :
      (doc : AnmlDocument) (action_id : Text) (action : AnmlAction)
      → find_action doc action_id ≡ some action
      → (interact : AnmlInteract) × (doc.interact ≡ some interact)
        × IsFirst (action_id_is action_id) action interact.actions
  unfolding find_action
  find_action-IsFirst doc action_id action h = elim (Option-cases doc.interact) [
    | inl missing ↦ ground arith
    | inr (interact, e) ↦ (
      interact,
      e,
      find-IsFirst (action_id_is action_id) interact.actions (rw (find_action, e) at h),
    )
  ]

  pub prepare-Cleared :
      (ctx : ActionContext) (doc : AnmlDocument) (action_id : Text)
      (user_params : List (Text × Text)) (p : Prepared)
      → prepare platform ctx doc action_id user_params ≡ ok p
      → Cleared ctx doc action_id user_params p
  unfolding prepare
  prepare-Cleared ctx doc action_id user_params p h =
      elim (Option-cases (find_action doc action_id)) [
        | inl missing ↦ ground arith
        | inr (action, found) ↦
            elim (Result-cases
              (resolve_endpoint platform action.endpoint ctx.document_origin ctx.xml_base)) [
                | inr (e, failed) ↦ ground arith
                | inl (endpoint, resolved) ↦ elim (Result-cases (check_ssrf platform endpoint)) [
                  | inr (e, failed) ↦ ground arith
                  | inl (tt, safe) ↦
                      elim (Result-cases (
                        validate_params platform (list_or action.params)
                          (collect_params (list_or action.params) user_params))) [
                            | inr (e, failed) ↦ ground arith
                            | inl (tt, valid) ↦
                                let e : record {
                                  action = action;
                                  endpoint = endpoint;
                                  values = collect_params (list_or action.params) user_params;
                                }
                                    ≡ p =
                                  ground arith in
                                subst (Cleared ctx doc action_id user_params) e (
                                  find_action-IsFirst doc action_id action found,
                                  resolved,
                                  check_ssrf-HasPublicHost endpoint safe,
                                  refl,
                                  validate_params-IsValid _ _ valid,
                                )
                          ]
                ]
              ]
      ]
