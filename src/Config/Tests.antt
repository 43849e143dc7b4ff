-- ===== src/Config/Tests.antt =====
-- The theorems about the settings at concrete inputs.
use rdapify.Base.{◌≡◌, ◌↔◌}
use rdapify.Base.Result.{ok}
use rdapify.Config.{default_config}
use rdapify.Config.Load.{validate_config}
use rdapify.Config.Bounds.{InBounds, validate_config_iff}

validate_config_iff_example : (validate_config default_config ≡ ok tt) ↔ InBounds default_config
validate_config_iff_example = validate_config_iff default_config
