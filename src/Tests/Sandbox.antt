-- ===== src/Tests/Sandbox.antt =====
-- The quota commands of control/app/sandbox.py.
use boathouse_cloud.Prelude.{◌≡◌, refl, false, true, not, arith}
use boathouse_cloud.Sandbox.Prefixes.{allowed_prefixes, is_allowed, is_blocked, quota_ioctls}
use boathouse_cloud.Sandbox.Exact.{allowed_prefixes-is_blocked}

-- FS_IOC_SETFLAGS of compat programs is refused, and its neighbour is not.
refused : is_allowed 0x40046602 (allowed_prefixes quota_ioctls 32 0) ≡ false
unfolding is_allowed allowed_prefixes
refused = refl

neighbour : is_allowed 0x40046603 (allowed_prefixes quota_ioctls 32 0) ≡ true
unfolding is_allowed allowed_prefixes
neighbour = refl

allowed_prefixes-is_blocked_example :
    is_allowed 0x40046602 (allowed_prefixes quota_ioctls 32 0)
    ≡ not (is_blocked 0x40046602 quota_ioctls)
allowed_prefixes-is_blocked_example =
    allowed_prefixes-is_blocked quota_ioctls 0x40046602
      (omega arith, (omega arith, (omega arith, tt))) (omega arith)
