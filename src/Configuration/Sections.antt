-- ===== src/Configuration/Sections.antt =====
-- When the configuration has a defined value.
use homecontrol_server.Common.{
  ◌≡◌, ◌↔◌, refl, false, Text, codes, [], Option, some, Option-cases, inl, inr, arith,
}
use homecontrol_server.Json.{JsonLib}
use homecontrol_server.Configuration.{
  Configuration, get_config_section, new_configuration, read_remote_manager, load_configuration,
  read_config_file, initialised, or_empty, read_array, id_in,
}

module _ (j : JsonLib) where
  -- The text is JSON whose member `Configuration` has a member under the name that is not null.
  pub record HasSection (name content : Text) : Type 0 where
    pub whole : j.Json
    pub configuration : j.Json
    pub section : j.Json
    pub parsed : j.parse content ≡ some whole
    pub member : j.field whole (codes "Configuration") ≡ some configuration
    pub named : j.field configuration name ≡ some section
    pub present : j.is_null section ≡ false

  section_of :
      (name content : Text) (h : HasSection name content)
      → get_config_section j name content ≡ some h.section
  unfolding get_config_section
  section_of name content h = rw h.parsed (rw h.member (rw h.named (rw h.present refl)))

  has_section :
      (name content : Text) (v : j.Json)
      → get_config_section j name content ≡ some v
      → HasSection name content
  unfolding get_config_section
  has_section name content v e = elim (Option-cases (j.parse content)) [
    | inl p ↦ absurd (ground arith)
    | inr (whole, p) ↦ elim (Option-cases (j.field whole (codes "Configuration"))) [
      | inl q ↦ absurd (ground arith)
      | inr (configuration, q) ↦ elim (Option-cases (j.field configuration name)) [
        | inl r ↦ absurd (ground arith)
        | inr (s, r) ↦ record {
          whole = whole;
          configuration = configuration;
          section = s;
          parsed = p;
          member = q;
          named = r;
          present = ground arith;
        }
      ]
    ]
  ]

  -- The configuration of a file has a defined value exactly if the file is JSON with a section for the
  -- remote manager. Without the file, with a text that is no JSON, or without this section, it has
  -- none: the empty configuration, which every other section is replaced by, is not reached.
  pub load_configuration_defined_iff :
      (file : Option Text)
      → ((c : Configuration) × (load_configuration j file ≡ some c))
        ↔ HasSection (codes "RemoteManager") (read_config_file file)
  unfolding load_configuration new_configuration read_remote_manager
  load_configuration_defined_iff file = (
    λ r.
        elim (Option-cases (get_config_section j (codes "RemoteManager") (read_config_file file))) [
          | inl e ↦ absurd (ground (arith, r.1))
          | inr (v, e) ↦ has_section _ _ v e
        ],
    λ h. (
      initialised j (read_config_file file)
          (or_empty [] (read_array j (codes "ForwardIds") (id_in j) h.section)),
      rw (section_of _ _ h) refl,
    ),
  )
