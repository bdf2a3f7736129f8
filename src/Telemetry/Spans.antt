-- ===== src/Telemetry/Spans.antt =====
-- telemetry.py: the two spans of `OpenTelemetryClient`, as what a list of calls of the span passes on
-- to the span of the library. `start_span` and `end_span` are `__enter__` and `__exit__` of the first.
use agent_storm.Prelude.{String, Bool, true, false, List, [], ◌∷◌, ◌≡◌, refl}
use agent_storm.Telemetry.{
  AttributeValue, text_attribute, Call, start_span, start_detached_span, set_attribute, set_error,
  end_span, shutdown,
}

-- The calls of a span of the library.
pub data SpanCall : Type 0 where
  attribute_set : (name : String) (value : AttributeValue) → SpanCall
  status_error span_end : SpanCall

-- The two calls of `set_error`.
pub error_set : (error_type : String) → List SpanCall → List SpanCall
error_set error_type rest =
    attribute_set "error.type" (text_attribute error_type) ∷ status_error ∷ rest

-- `_OpenTelemetrySpan`: nothing before it is entered.
unfoldable pub scoped : (entered : Bool) → List Call → List SpanCall
unfolding error_set
scoped entered [] = []
scoped entered (start_span name values ∷ calls) = scoped true calls
scoped entered (end_span ∷ calls) = span_end ∷ scoped entered calls
scoped true (set_attribute name value ∷ calls) = attribute_set name value ∷ scoped true calls
scoped true (set_error error_type ∷ calls) = error_set error_type (scoped true calls)
scoped entered (_ ∷ calls) = scoped entered calls

-- `_OpenTelemetryDetachedSpan`: nothing after its end.
unfoldable pub detached : (ended : Bool) → List Call → List SpanCall
unfolding error_set
detached ended [] = []
detached false (set_attribute name value ∷ calls) = attribute_set name value ∷ detached false calls
detached false (set_error error_type ∷ calls) = error_set error_type (detached false calls)
detached false (end_span ∷ calls) = span_end ∷ detached true calls
detached ended (_ ∷ calls) = detached ended calls

-- Nothing follows the end.
abbrev pub IsClosedOnce : List SpanCall → Type 0
IsClosedOnce [] = Unit
IsClosedOnce (span_end ∷ rest) = rest ≡ []
IsClosedOnce (_ ∷ rest) = IsClosedOnce rest

detached_ended : (calls : List Call) → detached true calls ≡ []
unfolding detached
detached_ended [] = refl
detached_ended (start_span name values ∷ calls) = detached_ended calls
detached_ended (start_detached_span name values ∷ calls) = detached_ended calls
detached_ended (set_attribute name value ∷ calls) = detached_ended calls
detached_ended (set_error error_type ∷ calls) = detached_ended calls
detached_ended (end_span ∷ calls) = detached_ended calls
detached_ended (shutdown ∷ calls) = detached_ended calls

-- Whatever is called on a detached span, nothing reaches the library after its end, which is passed
-- on at most once.
pub detached-IsClosedOnce : (calls : List Call) → IsClosedOnce (detached false calls)
unfolding detached error_set
detached-IsClosedOnce [] = tt
detached-IsClosedOnce (start_span name values ∷ calls) = detached-IsClosedOnce calls
detached-IsClosedOnce (start_detached_span name values ∷ calls) = detached-IsClosedOnce calls
detached-IsClosedOnce (set_attribute name value ∷ calls) = detached-IsClosedOnce calls
detached-IsClosedOnce (set_error error_type ∷ calls) = detached-IsClosedOnce calls
detached-IsClosedOnce (end_span ∷ calls) = detached_ended calls
detached-IsClosedOnce (shutdown ∷ calls) = detached-IsClosedOnce calls
