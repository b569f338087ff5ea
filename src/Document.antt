-- ===== src/Document.antt =====
-- The data types of the `anml` crate, a dependency: its records with the fields that the client
-- reads, and its enums with the variants that the client names. `other` stands for the variants
-- that the client meets only by a wildcard.
use anml_client_rust.Common.{Bool, Option, List, Text}

pub data StepStatus : Type 0 where
  pending current completed skipped : StepStatus

pub data DisclosureRequires : Type 0 where
  explicit_consent implicit_consent authentication none other : DisclosureRequires

pub data FieldType : Type 0 where
  string number boolean date datetime uri other : FieldType

pub data ParamType : Type 0 where
  string number boolean date datetime uri enum other : ParamType

pub data ConfidentialityLevel : Type 0 where
  public restricted private : ConfidentialityLevel

pub data UsageType : Type 0 where
  none display cache store train : UsageType

pub record AnmlStep : Type 0 where
  pub id : Text
  pub label : Option Text
  pub status : Option StepStatus
  pub required : Option Bool
  pub next : Option Text
  pub condition : Option Text
  pub action : Option Text

pub record AnmlFlow : Type 0 where
  pub steps : List AnmlStep

pub record AnmlContext : Type 0 where
  pub step : Text

pub record AnmlState : Type 0 where
  pub flow : Option AnmlFlow
  pub context : Option AnmlContext

pub record AnmlAsk : Type 0 where
  pub field : Text
  pub action : Text
  pub required : Option Bool
  pub purpose : Option Text
  pub ask_type : Option FieldType

pub record AnmlKnowledge : Type 0 where
  pub asks : Option (List AnmlAsk)

pub record AnmlDisclosure : Type 0 where
  pub field : Text
  pub requires : DisclosureRequires

pub record AnmlConstraints : Type 0 where
  pub disclosures : Option (List AnmlDisclosure)

pub record AnmlMeta : Type 0 where
  pub name : Text
  pub value : Text

pub record AnmlHead : Type 0 where
  pub title : Option Text
  pub meta : Option (List AnmlMeta)

pub record AnmlRights : Type 0 where
  pub holder : Text
  pub year : Option Text
  pub license : Option Text
  pub usage : UsageType
  pub scope : Option Text

pub record AnmlAttribution : Type 0 where
  pub required : Option Bool
  pub scope : Option Text
  pub text : Option Text

pub record AnmlFooter : Type 0 where
  pub rights : Option (List AnmlRights)
  pub attributions : Option (List AnmlAttribution)

pub record AnmlNav : Type 0 where
  pub next : Option Text
  pub total : Option Text

pub data AnmlBodyChild : Type 0 where
  nav : AnmlNav → AnmlBodyChild
  -- the `id` of a `<data>` element
  section : Option Text → AnmlBodyChild
  other : AnmlBodyChild

pub record AnmlBody : Type 0 where
  pub children : Option (List AnmlBodyChild)

pub record AnmlParam : Type 0 where
  pub name : Text
  pub param_type : Option ParamType
  pub required : Option Bool
  pub default : Option Text
  pub pattern : Option Text
  pub min : Option Text
  pub max : Option Text
  pub options : Option (List Text)

pub data AuthType : Type 0 where
  required optional other : AuthType

pub record AnmlAction : Type 0 where
  pub id : Text
  pub method : Text
  pub endpoint : Text
  pub enctype : Option Text
  pub confirm : Option Bool
  pub idempotent : Option Bool
  pub auth : Option AuthType
  pub description : Option Text
  pub params : Option (List AnmlParam)

pub record AnmlInteract : Type 0 where
  pub actions : List AnmlAction

pub record AnmlStatus : Type 0 where
  -- the text of the result
  pub result : Text
  pub message : Option Text

pub record AnmlDocument : Type 0 where
  pub version : Option Text
  pub supported_versions : Option Text
  pub ttl : Option Text
  pub head : Option AnmlHead
  pub body : Option AnmlBody
  pub state : Option AnmlState
  pub knowledge : Option AnmlKnowledge
  pub asks : Option (List AnmlAsk)
  pub constraints : Option AnmlConstraints
  pub interact : Option AnmlInteract
  pub footer : Option AnmlFooter
  pub status : Option AnmlStatus

-- A document with no section at all, for tests and witnesses.
abbrev pub empty_document : AnmlDocument
empty_document = record {
  version = Option.none;
  supported_versions = Option.none;
  ttl = Option.none;
  head = Option.none;
  body = Option.none;
  state = Option.none;
  knowledge = Option.none;
  asks = Option.none;
  constraints = Option.none;
  interact = Option.none;
  footer = Option.none;
  status = Option.none;
}
