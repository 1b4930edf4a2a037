-- ===== src/Timing/Promise.antt =====
-- The delivery window that an order promises (`snapshot` and `apply` of
-- `backend/app/modules/delivery_timing/service.py`).
use text.Mathlib.Text.{◌==◌ as str_eq}
use baytna.Prelude.{ℕ, String, Bool, true, ◌&&◌, ◌||◌, Option, none, some, leb, if◌then◌else◌}
use baytna.Entities.{Order}
use baytna.Session.{Checked, ◌>>=◌, ◌>>◌, raise, raise_if, or_raise, ok}
use baytna.Settings.{Settings, Platform}

pub record DeliveryPromise : Type 0 where
  pub window_start_at : ℕ
  pub window_end_at : ℕ

-- `not text`
abbrev pub is_blank : Option String → Bool
is_blank none = true
is_blank (some s) = str_eq s ""

-- `_clock`
unfoldable pub read_clock : Platform → Option String → Checked ℕ
read_clock platform none = raise 409 "delivery_window_invalid"
read_clock platform (some raw) = or_raise 409 "delivery_window_invalid" (platform.clock raw)

-- `snapshot`
unfoldable pub snapshot :
    Platform → Settings → ℕ → Option String → Option String → Checked (Option DeliveryPromise)
unfolding read_clock
snapshot platform settings service_date window_start window_end =
    if is_blank window_start && is_blank window_end
    then (do raise_if settings.delivery_promise_required 409 "delivery_window_required"; ok none)
    else (do
      raise_if (is_blank window_start || is_blank window_end) 409 "delivery_window_incomplete"
      start_clock ← read_clock platform window_start
      end_clock ← read_clock platform window_end
      raise_if (leb end_clock start_clock) 409 "delivery_window_invalid"
      ok (
          some (record {
            window_start_at = platform.instant_of service_date start_clock;
            window_end_at = platform.instant_of service_date end_clock;
          })))

-- `apply`
unfoldable pub promise : Option DeliveryPromise → Order → Order
promise none o = o
promise (some p) o = record o {
  promised_delivery_window_start_at = some p.window_start_at;
  promised_delivery_window_end_at = some p.window_end_at;
}
