-- ===== src/RangeControl.antt =====
-- pkg/x/http/rangecontrol: the ranges of a Range header, their order, their union, and the
-- Content-Range of a response.
pub mod Request
pub mod Sort
pub mod Merge
pub mod Union
pub mod Gaps
pub mod Parsed
pub mod Printed
pub mod Response
pub mod Exchange
mod Tests
