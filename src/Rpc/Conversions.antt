-- ===== src/Rpc/Conversions.antt =====
-- Between the values of the interface and the protocol's messages (rpc_conv.go).
use copper.Prelude.{
  ℕ, ◌≡◌, ◌∙◌, refl, ap, sym, List, [], ◌∷◌, ◌++◌, append_assoc, append-nil, Option, none, some,
}
use copper.Publication.{PublishSettings}
use copper.Subscription.{SubscribeOption}
use copper.Routes.{Route}

-- The protocol's messages, by their fields, and pointers to them.
pub record ProtoOption : Type 0 where
  pub service : List ℕ
  pub min_distance : ℕ
  pub max_distance : ℕ

pub record ProtoEndpoint : Type 0 where
  pub network : List ℕ
  pub address : List ℕ
  pub target_id : ℕ

pub record ProtoSettings : Type 0 where
  pub priority : ℕ
  pub max_distance : ℕ
  pub concurrency : ℕ
  pub queue_size : ℕ

pub record ProtoRoute : Type 0 where
  pub options : List (Option ProtoOption)
  pub weight : ℕ

pub record ProtoChange : Type 0 where
  pub target_id : ℕ
  pub name : List ℕ
  pub settings : Option ProtoSettings

-- The getters' results for a pointer: those for nil are zero values.
abbrev pub no_option : ProtoOption
no_option = record { service = []; min_distance = 0; max_distance = 0 }

abbrev pub no_endpoint : ProtoEndpoint
no_endpoint = record { network = []; address = []; target_id = 0 }

abbrev pub no_settings : ProtoSettings
no_settings = record { priority = 0; max_distance = 0; concurrency = 0; queue_size = 0 }

abbrev pub no_route : ProtoRoute
no_route = record { options = []; weight = 0 }

abbrev pub no_change : ProtoChange
no_change = record { target_id = 0; name = []; settings = none }

abbrev pub deref {ℓ} : {A : Type ℓ} → A → Option A → A
deref d none = d
deref d (some a) = a

-- `Endpoint` and `ServiceChange` of interface.go
pub record Endpoint : Type 0 where
  pub network : List ℕ
  pub address : List ℕ
  pub target_id : ℕ

pub record ServiceChange : Type 0 where
  pub target_id : ℕ
  pub name : List ℕ
  pub settings : PublishSettings

-- The loops that append one converted element after the other to `result`.
module _ {ℓ κ} {A : Type ℓ} {B : Type κ} (f : A → B) where
  unfoldable pub append_each : List B → List A → List B
  append_each result [] = result
  append_each result (x ∷ xs) = append_each (result ++ (f x ∷ [])) xs

unfoldable pub proto_to_subscribe_options : List (Option ProtoOption) → List SubscribeOption
unfolding append_each
proto_to_subscribe_options ps =
    append_each
      (λ p.
        (let o = deref no_option p in
          record {
            service = o.service;
            min_distance = o.min_distance;
            max_distance = o.max_distance;
          }))
      [] ps

unfoldable pub subscribe_options_to_proto : List SubscribeOption → List (Option ProtoOption)
unfolding append_each
subscribe_options_to_proto os =
    append_each
      (λ o. some (record {
        service = o.service;
        min_distance = o.min_distance;
        max_distance = o.max_distance;
      }))
      [] os

unfoldable pub proto_to_endpoints : List (Option ProtoEndpoint) → List Endpoint
unfolding append_each
proto_to_endpoints ps =
    append_each
      (λ p.
        (let e = deref no_endpoint p in
          record { network = e.network; address = e.address; target_id = e.target_id }))
      [] ps

unfoldable pub endpoints_to_proto : List Endpoint → List (Option ProtoEndpoint)
unfolding append_each
endpoints_to_proto es =
    append_each
      (λ e. some (record { network = e.network; address = e.address; target_id = e.target_id })) []
      es

unfoldable pub proto_to_publish_settings : Option ProtoSettings → PublishSettings
proto_to_publish_settings p =
    let s = deref no_settings p in
    record {
      priority = s.priority;
      max_distance = s.max_distance;
      concurrency = s.concurrency;
      queue_size = s.queue_size;
    }

unfoldable pub publish_settings_to_proto : PublishSettings → Option ProtoSettings
publish_settings_to_proto s = some (record {
  priority = s.priority;
  max_distance = s.max_distance;
  concurrency = s.concurrency;
  queue_size = s.queue_size;
})

unfoldable pub proto_to_routes : List (Option ProtoRoute) → List Route
unfolding append_each proto_to_subscribe_options
proto_to_routes ps =
    append_each
      (λ p.
        (let r = deref no_route p in
          record { options = proto_to_subscribe_options r.options; weight = r.weight }))
      [] ps

unfoldable pub routes_to_proto : List Route → List (Option ProtoRoute)
unfolding append_each subscribe_options_to_proto
routes_to_proto rs =
    append_each
      (λ r. some (record { options = subscribe_options_to_proto r.options; weight = r.weight })) []
      rs

unfoldable pub proto_to_service_changes : List (Option ProtoChange) → List ServiceChange
unfolding append_each proto_to_publish_settings
proto_to_service_changes ps =
    append_each
      (λ p.
        (let c = deref no_change p in
          record {
            target_id = c.target_id;
            name = c.name;
            settings = proto_to_publish_settings c.settings;
          }))
      [] ps

unfoldable pub service_changes_to_proto : List ServiceChange → List (Option ProtoChange)
unfolding append_each publish_settings_to_proto
service_changes_to_proto cs =
    append_each
      (λ c. some (record {
        target_id = c.target_id;
        name = c.name;
        settings = publish_settings_to_proto c.settings;
      }))
      [] cs

-- A loop, and the loop back.
module _ {ℓ κ} {A : Type ℓ} {B : Type κ} (f : A → B) (g : B → A)
    (back : (x : A) → g (f x) ≡ x) where
  append_each-split :
      (done : List B) (xs : List A) → append_each f done xs ≡ done ++ append_each f [] xs
  unfolding append_each
  append_each-split done [] = sym (append-nil done)
  append_each-split done (x ∷ xs) =
      append_each-split (done ++ (f x ∷ [])) xs
      ∙ append_assoc done (f x ∷ []) (append_each f [] xs)
      ∙ ap (done ++◌) (sym (append_each-split (f x ∷ []) xs))

  append_each-back : (done xs : List A) → append_each g done (append_each f [] xs) ≡ done ++ xs
  unfolding append_each
  append_each-back done [] = sym (append-nil done)
  append_each-back done (x ∷ xs) =
      ap (append_each g done) (append_each-split (f x ∷ []) xs)
      ∙ append_each-back (done ++ (g (f x) ∷ [])) xs
      ∙ append_assoc done (g (f x) ∷ []) xs
      ∙ ap (λ y. done ++ (y ∷ xs)) (back x)

pub options_back :
    (os : List SubscribeOption) → proto_to_subscribe_options (subscribe_options_to_proto os) ≡ os
unfolding proto_to_subscribe_options subscribe_options_to_proto
options_back os = append_each-back _ _ (λ o. refl) [] os

pub endpoints_back : (es : List Endpoint) → proto_to_endpoints (endpoints_to_proto es) ≡ es
unfolding proto_to_endpoints endpoints_to_proto
endpoints_back es = append_each-back _ _ (λ e. refl) [] es

settings_back : (s : PublishSettings) → proto_to_publish_settings (publish_settings_to_proto s) ≡ s
unfolding proto_to_publish_settings publish_settings_to_proto
settings_back s = refl

routes_back : (rs : List Route) → proto_to_routes (routes_to_proto rs) ≡ rs
unfolding proto_to_routes routes_to_proto
routes_back rs =
    append_each-back _ _
      (λ r. ap (λ os. record { options = os; weight = r.weight }) (options_back r.options)) [] rs

changes_back :
    (cs : List ServiceChange) → proto_to_service_changes (service_changes_to_proto cs) ≡ cs
unfolding proto_to_service_changes service_changes_to_proto
changes_back cs =
    append_each-back _ _
      (λ c.
        ap (λ s. record { target_id = c.target_id; name = c.name; settings = s })
          (settings_back c.settings))
      [] cs

-- Whatever is converted to the protocol's messages and back, in the same order, is as it was: the
-- options of a subscription, endpoints, settings, routes with their options, and changes with theirs.
pub conversions_back :
    (os : List SubscribeOption) (es : List Endpoint) (s : PublishSettings) (rs : List Route)
    (cs : List ServiceChange)
    → (proto_to_subscribe_options (subscribe_options_to_proto os) ≡ os)
      × (proto_to_endpoints (endpoints_to_proto es) ≡ es)
      × (proto_to_publish_settings (publish_settings_to_proto s) ≡ s)
      × (proto_to_routes (routes_to_proto rs) ≡ rs)
      × (proto_to_service_changes (service_changes_to_proto cs) ≡ cs)
conversions_back os es s rs cs =
    (options_back os, endpoints_back es, settings_back s, routes_back rs, changes_back cs)
