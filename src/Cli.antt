-- ===== src/Cli.antt =====
-- crates/pbox-cli/src: what the command line decides by itself about images, snapshots and recipes.
pub mod Images
pub mod Snapshots
pub mod Recipes
