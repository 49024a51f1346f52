-- ===== src/Agents/Examples.antt =====
-- The profiles at concrete roles.
use muslimrentals.Roles.{qa}
use muslimrentals.Agents.Permissions.{IsSeparated, get_profile-IsSeparated}

get_profile-IsSeparated_example : IsSeparated qa
get_profile-IsSeparated_example = get_profile-IsSeparated qa
