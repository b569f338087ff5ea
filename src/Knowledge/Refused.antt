-- ===== src/Knowledge/Refused.antt =====
-- What `refused_fields` of src/knowledge/response.rs reports.
use anml_client_rust.Common.{Bool, List, [], ◌∷◌, ◌++◌, ◌≡◌, refl, ap, append-nil, Text}
use anml_client_rust.Document.{AnmlDocument, AnmlAsk}
use anml_client_rust.Disclosure.Evaluate.{DisclosureContext, Stores}
use anml_client_rust.Knowledge.{
  AnmlAnswer, AnmlRefuse, AnmlInform, AnmlResponseBuilder, AnswerOutcome, answered, refused,
  build_answer, ResponseBuilder, new_response, with_answer, with_refuse, with_ask,
  with_inform_element, with_outcome, answer_checked,
}

-- An element of a response.
pub data Element : Type 0 where
  answer_element : AnmlAnswer → Element
  refuse_element : AnmlRefuse → Element
  ask_element : AnmlAsk → Element
  inform_element : AnmlInform → Element

-- The refusals among the elements.
abbrev pub refusals : List Element → List AnmlRefuse
refusals [] = []
refusals (refuse_element r ∷ es) = r ∷ refusals es
refusals (_ ∷ es) = refusals es

refusals-append : (es fs : List Element) → refusals (es ++ fs) ≡ refusals es ++ refusals fs
refusals-append [] fs = refl
refusals-append (refuse_element r ∷ es) fs = ap (◌∷◌ r) (refusals-append es fs)
refusals-append (answer_element a ∷ es) fs = refusals-append es fs
refusals-append (ask_element a ∷ es) fs = refusals-append es fs
refusals-append (inform_element i ∷ es) fs = refusals-append es fs

module _ (anml : AnmlResponseBuilder) where
  abbrev pub add_element : anml.Builder → Element → anml.Builder
  add_element b (answer_element a) = anml.answer a b
  add_element b (refuse_element r) = anml.refuse r b
  add_element b (ask_element a) = anml.ask a b
  add_element b (inform_element i) = anml.inform i b

  abbrev pub add_elements : anml.Builder → List Element → anml.Builder
  add_elements b [] = b
  add_elements b (e ∷ es) = add_elements (add_element b e) es

  add_elements-append :
      (b : anml.Builder) (es : List Element) (e : Element)
      → add_elements b (es ++ (e ∷ [])) ≡ add_element (add_elements b es) e
  add_elements-append b [] e = refl
  add_elements-append b (f ∷ es) e = add_elements-append (add_element b f) es e

  -- The builder holds these elements, in order, and reports the refusals among them.
  abbrev pub Holds : List Element → ResponseBuilder anml → Type 0
  Holds es b = (b.inner ≡ add_elements anml.empty es) × (b.refused ≡ refusals es)

  holds_next :
      (es : List Element) (e : Element) (inner : anml.Builder) (reported : List AnmlRefuse)
      → inner ≡ add_elements anml.empty es
      → reported ≡ refusals es
      → (add_element inner e ≡ add_elements anml.empty (es ++ (e ∷ [])))
        × (reported ++ refusals (e ∷ []) ≡ refusals (es ++ (e ∷ [])))
  holds_next es e inner reported h k =
      (rw (add_elements-append anml.empty es e, h) refl, rw (refusals-append es (e ∷ []), k) refl)

  holds_other :
      (es : List Element) (e : Element) (inner : anml.Builder) (reported : List AnmlRefuse)
      → refusals (e ∷ []) ≡ []
      → inner ≡ add_elements anml.empty es
      → reported ≡ refusals es
      → (add_element inner e ≡ add_elements anml.empty (es ++ (e ∷ [])))
        × (reported ≡ refusals (es ++ (e ∷ [])))
  holds_other es e inner reported other h k = (
    rw (add_elements-append anml.empty es e, h) refl,
    rw (refusals-append es (e ∷ []), other, append-nil (refusals es)) k,
  )

  -- A call of one of the builder's methods.
  pub data Method : Type 0 where
    add_checked : AnmlDocument → Text → Text → Method
    add_answer : AnmlAnswer → Method
    add_refuse : AnmlRefuse → Method
    add_ask : AnmlAsk → Method
    add_inform : AnmlInform → Method

  module _ (url_parses : Text → Bool) (hmac_hex : Text → Text → Text)
      (ctx : DisclosureContext) where
    abbrev pub call : Method → Stores × ResponseBuilder anml → Stores × ResponseBuilder anml
    call (add_checked doc field value) (s, b) =
        answer_checked anml url_parses hmac_hex ctx doc field value s b
    call (add_answer a) (s, b) = (s, with_answer anml a b)
    call (add_refuse r) (s, b) = (s, with_refuse anml r b)
    call (add_ask a) (s, b) = (s, with_ask anml a b)
    call (add_inform i) (s, b) = (s, with_inform_element anml i b)

    abbrev pub calls : List Method → Stores × ResponseBuilder anml → Stores × ResponseBuilder anml
    calls [] b = b
    calls (m ∷ ms) b = calls ms (call m b)

    call-Holds :
        (m : Method) (s : Stores) (b : ResponseBuilder anml) (es : List Element)
        → Holds es b
        → (fs : List Element) × Holds fs (call m (s, b)).1
    unfolding answer_checked with_refuse
    call-Holds (add_checked doc field value) s b es (h, k) =
        by_outcome (build_answer url_parses hmac_hex ctx doc field value s).1
      where
        by_outcome : (o : AnswerOutcome) → (fs : List Element) × Holds fs (with_outcome anml o b)
        by_outcome (answered a) = (
          es ++ (answer_element a ∷ []),
          holds_other es (answer_element a) b.inner b.refused refl h k,
        )
        by_outcome (refused r) =
            (es ++ (refuse_element r ∷ []), holds_next es (refuse_element r) b.inner b.refused h k)
    call-Holds (add_answer a) s b es (h, k) = (
      es ++ (answer_element a ∷ []),
      holds_other es (answer_element a) b.inner b.refused refl h k,
    )
    call-Holds (add_refuse r) s b es (h, k) =
        (es ++ (refuse_element r ∷ []), holds_next es (refuse_element r) b.inner b.refused h k)
    call-Holds (add_ask a) s b es (h, k) =
        (es ++ (ask_element a ∷ []), holds_other es (ask_element a) b.inner b.refused refl h k)
    call-Holds (add_inform i) s b es (h, k) = (
      es ++ (inform_element i ∷ []),
      holds_other es (inform_element i) b.inner b.refused refl h k,
    )

    calls-Holds :
        (ms : List Method) (s : Stores) (b : ResponseBuilder anml) (es : List Element)
        → Holds es b
        → (fs : List Element) × Holds fs (calls ms (s, b)).1
    calls-Holds [] s b es h = (es, h)
    calls-Holds (m ∷ ms) s b es h =
        let (fs, k) = call-Holds m s b es h in
        calls-Holds ms (call m (s, b)).0 (call m (s, b)).1 fs k

    -- After any calls of the builder's methods, the reported refusals are exactly the refusals that
    -- were put into the response, in the order of the response.
    pub refused_fields-Holds :
        (ms : List Method) (s : Stores)
        → (es : List Element) × Holds es (calls ms (s, new_response anml)).1
    refused_fields-Holds ms s = calls-Holds ms s (new_response anml) [] (refl, refl)
