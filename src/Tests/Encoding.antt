-- ===== src/Tests/Encoding.antt =====
-- Runs of the JSON encoder.
use peoplebot_releases.Base.{◌≡◌, refl, true}
use peoplebot_releases.Json.{
  null, bool, int, str, arr, obj, nil, cons, end, field, stable_json_bytes,
}

encoded :
    stable_json_bytes (
      obj (
        field "b"
          (arr (cons (int 120) (cons null nil)))
          (field "a" (str "x\"\n") (field "c" (bool true) end))))
    ≡ "{\"a\":\"x\\\"\\n\",\"b\":[120,null],\"c\":true}\n"
unfolding stable_json_bytes
encoded = refl
