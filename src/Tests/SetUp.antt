-- ===== src/Tests/SetUp.antt =====
-- The set-up of a virtual CPU at fixed values.
use ymirc.Prelude.{◌≡◌, if◌then◌else◌}
use ymirc.Setup.{iopm_contents}
use ymirc.Setup.Ports.{intercepted, is_direct, iopm_contents_lem}

iopm_contents_lem_example : intercepted iopm_contents 0x3F9 ≡ (if is_direct 0x3F9 then 0 else 1)
iopm_contents_lem_example = iopm_contents_lem 0x3F9
