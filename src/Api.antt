-- ===== src/Api.antt =====
-- The API objects of pkg/apis/autoscaling/v1alpha1/types.go, one record for each struct.
-- A Go string type is `String`, its named values are constants; a pointer is an `Option`; `int32`
-- and `int64` are integers of `Common.Int`; `metav1.Time` is an instant in nanoseconds.
pub mod Extern
pub mod Behavior
pub mod Metrics
pub mod Modes
pub mod Autoscaler
