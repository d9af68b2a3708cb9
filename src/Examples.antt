-- ===== src/Examples.antt =====
-- Concrete machines and inputs on which the definitions run and the theorems apply.
mod Wire
mod Machine
mod Texts
mod Machines
mod Commands
mod Serving
mod Tools
mod Terminal
mod Hosts
