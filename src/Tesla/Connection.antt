-- ===== src/Tesla/Connection.antt =====
-- homecontrol/TeslaConnection.cpp: one request to the web site of the car. The exchange itself is an
-- argument: from the world, the method, the address and the value of the header `Authorization`, the
-- text of the response, or nothing if an exception is thrown.
use homecontrol_server.Common.{Text, codes, text_eq, [], ◌++◌, Option, none, some, if◌then◌else◌}

-- `http::method` is a string.
abbrev pub method_get : Text
method_get = codes "GET"

abbrev pub method_post : Text
method_post = codes "POST"

pub record TeslaConnection : Type 0 where
  pub access_token : Option Text
  pub vehicle_id : Text
  pub control_url : Text
  pub get_extension_url : Text

pub build_url : Text → Text → Text → Text → Text → Text
build_url mtd vehicle_id control_url get_extension_url cmd =
    if text_eq mtd method_get
    then control_url
      ++ codes "/"
      ++ vehicle_id
      ++ codes "/"
      ++ get_extension_url
      ++ codes "/"
      ++ cmd
    else if text_eq mtd method_post
    then control_url ++ codes "/" ++ vehicle_id ++ codes "/" ++ cmd
    else []

module _ {W : Type 0} (exchange : W → Text → Text → Text → Option Text × W) where
  abbrev or_empty : Option Text × W → Text × W
  or_empty (none, w) = ([], w)
  or_empty (some response, w) = (response, w)

  -- Without a token nothing is sent, and an exception gives the empty text.
  pub run_request : TeslaConnection → Text → Text → W → Text × W
  unfolding build_url
  run_request c mtd cmd w = elim c.access_token [
    | none ↦ ([], w)
    | some token ↦ or_empty (
        exchange w mtd (build_url mtd c.vehicle_id c.control_url c.get_extension_url cmd)
          (codes "Bearer " ++ token))
  ]

  pub get : TeslaConnection → Text → W → Text × W
  unfolding run_request
  get c cmd w = run_request c method_get cmd w

  pub post : TeslaConnection → Text → W → Text × W
  unfolding run_request
  post c cmd w = run_request c method_post cmd w
