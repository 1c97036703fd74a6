-- ===== src/Authz/Client.antt =====
-- authz/client.go: what a client is made of, and the requests that it sends. The services of
-- infra/jsonclient, which end in net/http, are an interface; a request also carries what other clients
-- do to the cache while it is on its way.
pub mod Types
pub mod Creates
pub mod Gets
pub mod Updates
pub mod Edges
pub mod Paths
pub mod Lists
pub mod Pages
use authzsdk.Prelude.{ℕ, Option, none, some, List, Bool, true, false, Text, ◌==◌, if◌then◌else◌}
use authzsdk.Pagination.Types.{ResponseFields}
use authzsdk.Cache.Manager.{CacheError, Reply, reply, failed}

-- What a request comes to: the response, an error with its status and, where the body of the error can
-- be read, its fields identical and id, or another error.
pub data Sent (A : Type 0) : Type 0 where
  answer : A → Sent A
  refused : ℕ → Option (Bool × Text) → Sent A
  broken : Sent A

pub data ClientError : Type 0 where
  cache_error : CacheError → ClientError
  not_found request_failed bad_input : ClientError
  unexpected_count : ℕ → ClientError

pub data Outcome (A : Type 0) : Type 0 where
  got : A → Outcome A
  error : ClientError → Outcome A

-- The error of a status, with the test IsHTTPNotFound.
abbrev pub error_of : ℕ → ClientError
error_of status = if status == 404 then not_found else request_failed

-- A request whose errors are returned, with the client's own error for a status of 404.
abbrev pub outcome : {A : Type 0} → Sent A → Outcome A
outcome (answer a) = got a
outcome (refused status body) = error (error_of status)
outcome broken = error request_failed

-- A request whose errors are returned as they are.
abbrev pub plain_outcome : {A : Type 0} → Sent A → Outcome A
plain_outcome (answer a) = got a
plain_outcome (refused status body) = error request_failed
plain_outcome broken = error request_failed

-- The action of a create or get: any error is none.
abbrev pub or_none : {A : Type 0} → Sent A → Option A
or_none (answer a) = some a
or_none (refused status body) = none
or_none broken = none

abbrev pub outcome_of : {A : Type 0} → Reply A → Outcome A
outcome_of (reply a) = got a
outcome_of (failed e) = error (cache_error e)

-- A page of a list request.
pub record Page (A : Type 0) : Type 0 where
  pub data_ : List A
  pub response : ResponseFields
  pub open response use {has_next, has_prev}

-- The requests on one type, by path, and by query for lists.
pub record Api (S A : Type 0) : Type 0 where
  pub get : Text → S → S × Sent A
  pub get_page : Text → List (Text × Text) → S → S × Sent (Page A)
  pub post : Text → A → S → S × Sent A
  pub delete : Text → S → S × Sent (Unit {0})

-- The options of one call, as they are applied to those of the client.
pub record Options : Type 0 where
  pub if_not_exists : Bool
  pub bypass_cache : Bool
  pub organization_id : Text
