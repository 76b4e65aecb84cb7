-- ===== src/ParentalControl/Update.antt =====
-- parental_control.py: `set_rule` and `set_state`, up to the call of the service.
pub mod Sent
use asusrouter.Base.{Bool, true, false, Option, none, some, if◌then◌else◌}
use asusrouter.Base.Int.{ℤ, pos, negsuc}
use asusrouter.ParentalControl.Rules.{
  Rule, Rules, RuleType, remove, rule, check_rule, add_rule, remove_rule,
}
use asusrouter.ParentalControl.Table.{Vectors, write_pc_rules}

-- What the caller knows of the router: the rules of the table, if they are a dict, and whether a
-- write has made them stale.
pub record Known : Type 0 where
  pub rules : Option Rules
  pub invalidated : Bool

-- The arguments that the service `restart_firewall` is called with.
pub data Arguments : Type 0 where
  table : Vectors → Arguments
  state : ℤ → Arguments
  block_all : ℤ → Arguments

abbrev pub is_remove : RuleType → Bool
is_remove remove = true
is_remove _ = false

unfoldable pub change : Rules → Rule → Option Rules
change rules r =
    if is_remove r.kind
    then some (remove_rule rules (rule r))
    else (let (accepted, checked) = check_rule r in
        if accepted then some (add_rule rules checked) else none)

unfoldable pub map_table : Option Rules → Option Arguments
map_table none = none
map_table (some rules) = some (table (write_pc_rules rules))

unfoldable pub from_known : Option Rules → Bool → Rule → Option Arguments
from_known none stale r = none
from_known (some rules) true r = none
from_known (some rules) false r = map_table (change rules r)

-- `set_rule`; `none` is a refusal that makes no call.
unfoldable pub set_rule : Option Known → Rule → Option Arguments
unfolding change from_known map_table
set_rule none r = none
set_rule (some k) r = from_known k.rules k.invalidated r

-- `AsusParentalControl` and `AsusBlockAll`, whose members have the same values.
pub data Switch : Type 0 where
  unknown_switch off on : Switch

pub data State : Type 0 where
  parental_control block_all_state : Switch → State
  pc_rule : Rule → State

switch_value : Switch → Option ℤ
switch_value unknown_switch = none
switch_value off = some (pos 0)
switch_value on = some (pos 1)

map_arguments : (ℤ → Arguments) → Option ℤ → Option Arguments
map_arguments f none = none
map_arguments f (some z) = some (f z)

-- `set_state`
unfoldable pub set_state : Option Known → State → Option Arguments
unfolding switch_value map_arguments set_rule
set_state k (pc_rule r) = set_rule k r
set_state k (parental_control s) = map_arguments state (switch_value s)
set_state k (block_all_state s) = map_arguments block_all (switch_value s)
