-- ===== src/Examples.antt =====
-- Runs of the definitions on inputs like those of the program's tests, and each result at an input.
mod Escape
mod Labels
mod Render
mod Pipeline
mod Replace
mod Ensure
mod Apply
mod Stable
mod Creds
mod Discover
mod Volumes
mod Webapi
mod Supervisor
mod Calls
mod Place
mod PlaceLaws
mod System
mod Wired
mod Whole
mod Killed
mod Written
mod Reconcile
mod Container
mod Served
