-- ===== src/Examples.antt =====
-- Runs of the theorems at concrete inputs, a module for each part of the program.
mod Containers
mod Pointers
mod Linking
mod Selecting
mod Locating
mod Rendering
mod Configuring
mod Compiling
mod Templating
mod Expressions
mod Rings
mod Schemas
mod Documents
mod Bound
