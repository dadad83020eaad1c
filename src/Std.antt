-- ===== src/Std.antt =====
-- The containers of the C++ standard library that the server stores its data in, with the
-- operations that it calls: std::string, std::unordered_map and std::unordered_set. A container is
-- a list of its elements in its order of iteration, which the standard leaves open.
pub mod Text
pub mod Map
pub mod Convert
pub mod ConvertLaws
pub mod Set
