-- ===== src/Manager/Route.antt =====
-- management_route.rs.
use networkcopy_speed.Common.{ℕ, Option, none, some, ◌==◌, if◌then◌else◌}

pub data ManagementRouteMode : Type 0 where
  automatic_lan direct_link explicit_ip : ManagementRouteMode

pub code : ManagementRouteMode → ℕ
code automatic_lan = 0
code direct_link = 1
code explicit_ip = 2

pub from_code : ℕ → Option ManagementRouteMode
from_code value =
    if value == 0
    then some automatic_lan
    else if value == 1
    then some direct_link
    else if value == 2
    then some explicit_ip
    else none
