-- ===== src/Metrics/Resource.antt =====
-- internal/metrics/otel_resource.go. The name of the host, and the order in which Go walks a map, are
-- parameters.
use gitlab_elt.Common.{
  String, Option, none, some, List, [], ◌∷◌, ◌++◌, map, GoMap, lookup, ◌==◌, string_eq,
  if◌then◌else◌, ◌≡◌, ap,
}
use gitlab_elt.Text.{trim_space}
use gitlab_elt.Text.Order.{sort_strings, Reordered, sort_strings-Reordered}
use gitlab_elt.Config.Types.{OtelResourceConfig}

-- The attributes with a name of the library's conventions, and the others.
pub data Attribute : Type 0 where
  service_name service_version service_namespace service_instance_id : String → Attribute
  attribute : String → String → Attribute

abbrev pub attribute_if : (String → Attribute) → String → List Attribute
attribute_if make v = if v == "" then [] else make v ∷ []

-- `os.Hostname`, which may fail.
abbrev pub host_or_empty : Option String → String
host_or_empty none = ""
host_or_empty (some host) = host

abbrev pub text_of : Option String → String
text_of none = ""
text_of (some v) = v

module _ (hostname : Option String) (cfg : OtelResourceConfig) where
  abbrev pub instance_of : String
  instance_of =
      if trim_space cfg.instance_id == ""
      then host_or_empty hostname
      else trim_space cfg.instance_id

  -- The attributes, for the keys of the configured ones in their order.
  abbrev pub attributes : List String → List Attribute
  attributes extra_keys =
      service_name cfg.service_name
      ∷ (attribute_if service_version (trim_space cfg.service_version)
          ++ (attribute_if (attribute "deployment.environment") (trim_space cfg.environment)
              ++ (attribute_if service_namespace (trim_space cfg.namespace)
                  ++ (attribute_if service_instance_id instance_of
                      ++ map (λ k. attribute k (text_of (lookup k cfg.attributes))) extra_keys))))

  unfoldable pub build_resource : (GoMap String String → List String) → List Attribute
  build_resource walk = attributes (sort_strings (walk cfg.attributes))

  -- The attributes of the resource and their order do not depend on the order in which Go walks the
  -- map of the configured ones: two walks over the same keys give the same resource.
  pub build_resource-Reordered :
      (walk again : GoMap String String → List String)
      → Reordered (walk cfg.attributes) (again cfg.attributes)
      → build_resource walk ≡ build_resource again
  unfolding build_resource
  build_resource-Reordered walk again same = ap attributes (sort_strings-Reordered same)
