-- ===== src/Tesla/Website/Failing.antt =====
-- The read of the car when a response is no JSON.
use homecontrol_server.Common.{◌≡◌, refl, Text, codes, Option, none}
use homecontrol_server.Data.Devices.{Double}
use homecontrol_server.Json.{JsonLib}
use homecontrol_server.Tesla.Connection.{TeslaConnection, get}
use homecontrol_server.Tesla.Website.{
  get_response_as_object, valid_response, parsed_if_valid, read_part, and_then,
  read_data_from_tesla_website,
}

module _ (j : JsonLib) (times : Double → Double → Double) {W : Type 0}
    (exchange : W → Text → Text → Text → Option Text × W) where
  -- The exception leaves the read after its first request.
  pub read_unparsed :
      (c : TeslaConnection) (w : W)
      → j.parse (get exchange c (codes "climate_state") w).0 ≡ none
      → read_data_from_tesla_website j times exchange c w
        ≡ (none, (get exchange c (codes "climate_state") w).1)
  unfolding read_data_from_tesla_website read_part parsed_if_valid valid_response
      get_response_as_object and_then
  read_unparsed c w h = rw h refl
