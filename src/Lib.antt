-- ===== src/Lib.antt =====
-- AsusRouter is a Python client of the HTTP interface of Asus routers. An object `AsusRouter` keeps
-- the last known state of each kind of data, asks the router through one `Connection`, and changes the
-- router's state through modules such as that of parental control. This library models these parts:
--
-- - Base: the native numbers, integers, text as lists of code points, and Python's dicts as association
--   lists in insertion order.
-- - Tools: asusrouter/tools/converters.py (`safe_bool`, `safe_int`, `clean_string`), tools/cleaners.py
--   (`clean_content`), tools/security.py and tools/enum.py (the level of logging). Tools.Identifiers
--   has tools/identifiers/mac.py, where an address is its bytes, and ip.py over a record for Python's
--   `ipaddress`; Tools.Readers has `merge_dicts` of tools/readers.py on nested dicts with texts as keys,
--   and the check of the nesting of a JSON text after the removal of its string literals.
-- - Config: asusrouter/config.py. `ConfigBase` is `ARConfigBase`, with a function for each method; a
--   `KeyError` is `none`. Config.Instance has the global and the instance configuration.
-- - ConnectionConfig: asusrouter/connection_config.py, as a store and as its view.
-- - Errors and Endpoint: asusrouter/error.py, modules/endpoint/error.py and modules/endpoint/__init__.py.
-- - Connection: asusrouter/connection.py. `Conn` is the object, and a method is a function from it to
--   an outcome and the object as it is left, so what was written before a raise stays written. The
--   network may answer by everything that was sent. `choose` is `_async_handle_fallback`, `enter` and
--   `fallback` are `_fallback`, and `round` is one pass of `_send_request`, which calls itself again.
--   Connection.Body has `_read_response_content`; a request uses the sizes of its chunks only.
-- - ParentalControl: asusrouter/modules/parental_control.py. Rules checks, adds and removes, Capacity
--   has the limits, Table reads and writes the four vectors of the router, and Update has `set_rule` and
--   `set_state` up to the arguments of their service call.
-- - Data: asusrouter/modules/data.py, and the cache of `async_get_data` in asusrouter/asusrouter.py. A
--   fetch is cut where it waits for the router, so that other calls may run between its two halves.
--   Data.Sources has asusrouter/modules/data_finder.py and `_where_to_get_data`; its loop over aliases has
--   one unit of fuel for each look into the map, and two are enough in the map of the code.
-- - State: asusrouter/modules/state.py with `update_state` of modules/data.py. `save_state` is one step on
--   the store, State.Ended has the end of `async_set_state`, and State.Steps puts `save_state` among the
--   writes that may run while a fetch waits.
-- - Vpn: asusrouter/modules/vpnc.py, and the list of clients in `process_vpnc` of
--   asusrouter/modules/endpoint/hook.py. The fields of a client that are only passed on are left out.
--   Vpn.Services has the setters of modules/openvpn.py and modules/wireguard.py.
-- - Firmware: asusrouter/modules/firmware.py. In Firmware.Compare, `less` is `__lt__` and `greater`
--   is `__gt__`; the match of the regular expression is a parameter, which gives the groups.
-- - Clients: asusrouter/modules/client.py, with connection.py, ip_address.py and vendor.py. Reading has the
--   three mappings of keys and Process has `process_client`; the current time is an argument.
-- - Color: asusrouter/modules/color.py on integers. `full` is `ColorRGBB(color)`, `paint` is its
--   `from_rgb`, and Color.Parsing reads colours. `scale_value_int` stands in Tools.Scaling.
-- - Aura: asusrouter/modules/aura.py. Palette has the lists of colours that are changed in place, State
--   has `set_state` up to its callback, and Reading has `process_aura`.
-- - Service: asusrouter/modules/service.py. `call_service` is `async_call_service` over a callback that
--   answers what is sent; an exception is `none`.
-- - StaticDhcp: asusrouter/modules/static_dhcp.py, where a `ValueError` is `none`. `finish_lease` has the
--   checks of `normalize_static_dhcp_lease` and `columns_lease` is `_parse_row` on the columns. The
--   methods of asusrouter/asusrouter.py for static leases stand in two modules: StaticDhcp.Snapshot asks
--   the router, and in StaticDhcp.Update `set_lease` and `remove_lease` give the request that is sent and
--   how the method ends, with `run_service` for the service call that they make.
-- - Registry: asusrouter/registry.py, the callables of each class, found along its MRO.
-- - Examples: the theorems at concrete inputs.
--
-- The retries of a request are a loop on fuel, one unit for each round, with fuel of its own for the
-- rounds of a login. Six of each are enough if several fallbacks are not allowed, since every fallback
-- marks itself as used or leaves https; if they are allowed, no fuel is enough for every network. The
-- decimal text of a number n has the fuel n + 1, since each unit divides it by ten.
--
-- Python's reading of floats, the answers of the network, the encoding of the credentials, the
-- truth of cached data and its transformation are parameters. The connection runs one task at a
-- time: the shared connect task, its cancellation and the time a caller waits for it are not
-- modelled, nor is the wait of `async_get_data` for a fetch that is under way, the merge of several
-- endpoints, or the device that `_return_state` selects of the ports. The look-up and the decoding
-- of a charset are parameters. The products that `scale_value_int` divides are below 2 ^ 52, where
-- Python's float quotient rounds alike. Values of answers are texts, integers, Booleans and `None`.
-- Text methods that depend on the case of letters are those of ASCII text. Most readers of the
-- router's answers, the other settings (wireless, DDNS, system) and the device identity are not
-- modelled.
pub mod Base
pub mod Tools
pub mod Clients
pub mod Color
pub mod Aura
pub mod Config
pub mod Errors
pub mod Endpoint
pub mod ConnectionConfig
pub mod Connection
pub mod ParentalControl
pub mod Data
pub mod Firmware
pub mod Service
pub mod State
pub mod StaticDhcp
pub mod Vpn
pub mod Registry
pub mod Examples
