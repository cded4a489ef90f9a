-- ===== src/Config/Service/State/Served.antt =====
-- A validated store serves every identity that a rule matches (src/config/service/state.rs,
-- src/config/service/validate.rs).
use cli_framework.Config.Service.Inherit.Chain.{Chain}
