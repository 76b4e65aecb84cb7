-- ===== src/ParentalControl.antt =====
-- asusrouter/modules/parental_control.py: the rules of parental control. `Rules` checks, adds and
-- removes them, `Capacity` holds an update to the router's limits, `Table` reads and writes the four
-- vectors of the router, and `Update` makes a rule change from what is known of the table.
pub mod Rules
pub mod Capacity
pub mod Table
pub mod Update
