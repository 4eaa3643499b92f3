-- ===== src/Authz/Types.antt =====
-- gauth/authz/types.py: subjects, resources, actions, requests, responses and decisions, and the
-- abstract class `Condition`. Times are microseconds since the epoch.
use gauth_py.Base.{ℕ, Bool, List, Option, String}
use gauth_py.Core.Exceptions.{Result}

pub data Effect : Type 0 where
  allow deny : Effect

pub record Subject : Type 0 where
  pub id : String
  pub type : String
  pub roles : List String
  pub attributes : List (String × String)
  pub groups : List String

pub record Resource : Type 0 where
  pub id : String
  pub type : String
  pub owner : String
  pub attributes : List (String × String)
  pub tags : List String

pub record Action : Type 0 where
  pub id : String
  pub type : String
  pub name : String
  pub attributes : List (String × String)

pub record AccessRequest : Type 0 where
  pub subject : Subject
  pub resource : Resource
  pub action : Action
  pub context : List (String × String)

-- A value of a response's `annotations`: a text, or a time that the source prints.
pub data Annotation : Type 0 where
  text : String → Annotation
  instant : ℕ → Annotation

pub record AccessResponse : Type 0 where
  pub allowed : Bool
  pub reason : String
  pub policy_id : Option String
  pub annotations : List (String × Annotation)

pub record Decision : Type 0 where
  pub allowed : Bool
  pub reason : String
  pub policy : Option String
  pub timestamp : ℕ
  pub annotations : List (String × Annotation)

-- The abstract class: an implementation says what a condition is, and `evaluate` at a reading of
-- the clock answers or raises.
pub record ConditionClass : Type 1 where
  pub Condition : Type 0
  pub evaluate : Condition → AccessRequest → ℕ → Result Bool
