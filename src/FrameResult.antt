-- ===== src/FrameResult.antt =====
-- `frame_result` of src/core/frame_result.h and frame_result.cpp: one pending completion. Times and
-- ages are milliseconds of the steady clock, which every call that reads it takes as an argument; a
-- delegate is a number, and `none` is the null pointer. The typed trace fields are not modelled.
pub mod Payload
use eos_reimagined.Base.{
  ℕ, zero, suc, ◌+◌, ◌-◌, ◌*◌, ◌/◌, Bool, true, false, not, ◌&&◌, Option, none, some, List, [], ◌∷◌,
  ◌++◌, leb, if◌then◌else◌,
}
use eos_reimagined.ByteBuffer.{Text}

pub record FrameResult : Type 0 where
  pub type_id : ℕ
  pub payload : List ℕ
  pub func : Option ℕ
  pub ok_timeout : ℕ
  pub created_time : ℕ
  pub trace_fn : Text
  pub trace_corr : Text
  pub notification_event : Text
  pub notification_token : Text
  pub done : Bool
  pub remove_on_timeout : Bool

unfoldable pub frame_result : ℕ → FrameResult
frame_result now = record {
  type_id = 0;
  payload = [];
  func = none;
  ok_timeout = 0;
  created_time = now;
  trace_fn = [];
  trace_corr = [];
  notification_event = [];
  notification_token = [];
  done = false;
  remove_on_timeout = false;
}

zeros : ℕ → List ℕ
zeros zero = []
zeros (suc n) = 0 ∷ zeros n

-- `unit` is `sizeof(std::max_align_t)`, and the payload is its bytes.
pub create_callback : ℕ → FrameResult → ℕ → ℕ → Option ℕ → ℕ → ℕ → FrameResult
unfolding zeros
create_callback unit r type_id size func ok_timeout now = record r {
  type_id = type_id;
  func = func;
  ok_timeout = ok_timeout;
  payload = zeros ((size + unit - 1) / unit * unit);
  created_time = now;
  notification_event = [];
  notification_token = [];
  done = false;
  remove_on_timeout = false;
}

unfoldable pub callback_ok_timeout : FrameResult → ℕ → Bool
callback_ok_timeout r now = leb r.ok_timeout (now - r.created_time)

-- What `fire` does: a trace record, and the call of the delegate on the payload.
pub data Fired : Type 0 where
  notify : Text → Text → Fired
  call : ℕ → List ℕ → Fired

is_empty : Text → Bool
is_empty [] = true
is_empty (c ∷ s) = false

call_delegate : Option ℕ → List ℕ → List Fired
call_delegate none payload = []
call_delegate (some func) payload = call func payload ∷ []

unfoldable pub fire : FrameResult → List Fired
unfolding is_empty call_delegate
fire r =
    (if not (is_empty r.notification_event) && not (is_empty r.notification_token)
      then notify r.notification_event r.notification_token ∷ []
      else [])
    ++ call_delegate r.func r.payload

unfoldable pub set_trace : FrameResult → Text → Text → FrameResult
set_trace r fn corr = record r { trace_fn = fn; trace_corr = corr }

unfoldable pub set_notification_trace : FrameResult → Text → Text → FrameResult
set_notification_trace r event token = record r {
  notification_event = event;
  notification_token = token;
}
