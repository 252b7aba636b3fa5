-- ===== src/Handlers/Configured.antt =====
-- The providers of dot_flags.go and dot_nats_config.go as the dot value uses them: `FieldName` and
-- `Value`. They have no `Cleanup`.
use xtemplate.Prelude.{ℕ, Option, none, List, Text}
use xtemplate.Prelude.Errors.{ok}
use xtemplate.Dot.{DotConfig}
use xtemplate.Handlers.{Value, World, flags_value, nats_value}

-- `DotFlags` of the values.
unfoldable pub flags_provider : Text → List (Text × Text) → DotConfig World Value
flags_provider name values = record {
  field_name = name;
  value_ = λ w. (w, ok (flags_value values));
  cleanup_ = none;
}

-- `DotNats` of the connection and the JetStream that `Init` left.
unfoldable pub nats_provider : Text → Option ℕ → Option ℕ → DotConfig World Value
nats_provider name conn js = record {
  field_name = name;
  value_ = λ w. (w, ok (nats_value conn js));
  cleanup_ = none;
}
